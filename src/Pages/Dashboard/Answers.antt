-- ===== src/Pages/Dashboard/Answers.antt =====
-- What the two routes behind the dashboard answer.
use wwfsdb.Base.{◌≡◌, refl, subst, ◌≤◌, List, [], length, All, arith, inl, inr, take, String}
use wwfsdb.Js.Value.{Value, num, ok, Fields, obj, array, traverse}
use wwfsdb.Js.Traversal.{traverse-All}
use wwfsdb.Js.Runtime.{Runtime}
use wwfsdb.Js.Action.Yields.{
  Yields, Yields-pure, Yields-bind, Yields-then, Yields-lift, Yields-if, Yields-catch,
}
use wwfsdb.Http.{Request}
use wwfsdb.Api.Guard.{map_rows}
use wwfsdb.Api.Guard.Bodies.{Holds, guarded-Yields}
use wwfsdb.Api.Transactions.Filtering.{Result-cases}
use wwfsdb.Api.Accounts.{accounts_get, process_account, has_prefix, pick_account}
use wwfsdb.Api.Dashboard.{
  dashboard_stats_get, stats_of, compute_stats, recent_transactions, process_transaction,
  pick_transaction, stats_object, empty_stats,
}
use wwfsdb.Api.Dashboard.Recent.{length-take, length-traverse}

-- An object with some fields.
pub data IsObject {N : Type 0} : Value N → Type 0 where
  fields : (fs : Fields N) → IsObject (obj fs)

module _ (R : Runtime) where
  open R use {Num, Server, of_ℕ}

  process_account-IsObject : (a b : Value Num) → process_account R a ≡ ok b → IsObject b
  unfolding process_account
  process_account-IsObject a b h = elim (Result-cases (has_prefix "accounts." a)) [
    | inr (e, p) ↦ absurd (let m = rw (process_account, p) at h in ground arith)
    | inl (q, p) ↦
        let m = rw (process_account, p) at h in
        let same : pick_account R q a ≡ b = ground arith in subst IsObject same (fields _)
  ]

  process_transaction-IsObject : (a b : Value Num) → process_transaction R a ≡ ok b → IsObject b
  unfolding process_transaction
  process_transaction-IsObject a b h = elim (Result-cases (has_prefix "transactions." a)) [
    | inr (e, p) ↦ absurd (let m = rw (process_transaction, p) at h in ground arith)
    | inl (q, p) ↦
        let m = rw (process_transaction, p) at h in
        let same : pick_transaction R q a ≡ b = ground arith in subst IsObject same (fields _)
  ]

  -- At most four objects.
  abbrev FewObjects : List (Value Num) → Type 0
  FewObjects vs = All IsObject vs × (length vs ≤ 4)

  processed-FewObjects :
      (kept vs : List (Value Num))
      → traverse (process_transaction R) (take 4 kept) ≡ ok vs
      → FewObjects vs
  processed-FewObjects kept vs h =
      let same = length-traverse (process_transaction R) (take 4 kept) h in
      (
        traverse-All (process_transaction R) IsObject process_transaction-IsObject (take 4 kept) vs
            h,
        omega (arith, same, length-take 4 kept),
      )

  -- The statistics of a response.
  pub data IsStats : Value Num → Type 0 where
    all_stats :
        (balance income expenses cards : Num) (recent : List (Value Num))
        → FewObjects recent
        → IsStats
            (stats_object R (num balance) (num income) (num expenses) (num cards) (array recent))

  recent-Yields : (accounts : Value Num) → Yields FewObjects (recent_transactions R accounts)
  unfolding recent_transactions
  recent-Yields accounts = Yields-bind _ _ λ all_recent. Yields-bind _ _ λ ids.
      Yields-bind _ _
        λ rows. Yields-bind _ _ λ kept. Yields-lift _ (λ vs h. processed-FewObjects kept vs h)

  empty-IsStats : IsStats (empty_stats R)
  empty-IsStats = all_stats _ _ _ _ [] (tt, omega arith)

  compute-Yields :
      (accounts : Value Num) (ids since : String)
      → Yields IsStats (compute_stats R accounts ids since)
  unfolding compute_stats
  compute-Yields accounts ids since = Yields-bind _ _ λ a. Yields-bind _ _ λ b. Yields-bind _ _ λ c.
      Yields-bind _ _ λ d. Yields-bind _ _ λ a'. Yields-bind _ _ λ b'. Yields-bind _ _ λ c'.
        Yields-bind _ _ λ d'.
          Yields-then _ _ (recent-Yields accounts)
            λ recent few. Yields-pure _ (all_stats _ _ _ _ recent few)

  stats_of-Yields : (accounts : Value Num) → Yields IsStats (stats_of R accounts)
  unfolding stats_of
  stats_of-Yields accounts = Yields-bind _ _ λ quoted_ids.
      Yields-if _ _ _ (Yields-pure _ empty-IsStats) (
        Yields-bind _ _ λ since.
          Yields-catch _ _ (compute-Yields accounts _ since)
            (λ e. Yields-bind _ _ λ _. Yields-pure _ empty-IsStats))

  pub dashboard_stats_get-Yields :
      (request : Request Num) → Yields (Holds R "stats" IsStats) (dashboard_stats_get R request)
  unfolding dashboard_stats_get
  dashboard_stats_get-Yields request = guarded-Yields R _ _ "stats" IsStats request _ λ user.
      Yields-bind _ _ λ accounts.
        Yields-if _ _ _
          (Yields-then _ _ (stats_of-Yields accounts) λ s is. Yields-pure _ (λ _. (s, is, refl)))
          (Yields-pure _ (λ _. (empty_stats R, empty-IsStats, refl)))

  pub data IsAccounts : Value Num → Type 0 where
    all_accounts : (vs : List (Value Num)) → All IsObject vs → IsAccounts (array vs)

  pub accounts_get-Yields :
      (request : Request Num) → Yields (Holds R "accounts" IsAccounts) (accounts_get R request)
  unfolding accounts_get map_rows
  accounts_get-Yields request = guarded-Yields R _ _ "accounts" IsAccounts request _ λ user.
      Yields-bind _ _ λ rows.
        Yields-then {P = All IsObject} _ _
          (Yields-bind _ _ λ found.
            Yields-lift _ (λ vs h.
              traverse-All (process_account R) IsObject process_account-IsObject found vs h))
          λ vs objects. Yields-pure _ (λ _. (array vs, all_accounts vs objects, refl))
