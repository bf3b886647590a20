-- ===== src/Pages/Dashboard/Rendering.antt =====
-- The dashboard on what its two routes answer.
use wwfsdb.Base.{
  ◌≡◌, refl, ap, ◌∙◌, ℕ, ◌≤◌, ◌⊎◌, List, [], ◌∷◌, length, arith, inl, inr, Bool, Option, none, some,
  true, false, ◌&&◌, ltb, Bool-cases,
}
use wwfsdb.Js.Value.{
  Value, undefined, null, bool, num, str, arr, Result, ok, throw, obj, array, array_items, items,
  traverse, get, own,
}
use wwfsdb.Js.Convert.{elements}
use wwfsdb.Js.Traversal.{traverse-ok}
use wwfsdb.Js.Runtime.{Runtime}
use wwfsdb.Js.Action.{World}
use wwfsdb.Http.{Request, Response}
use wwfsdb.Api.Endpoint.Table.{get_dashboard, get_accounts}
use wwfsdb.Api.Endpoint.Verdicts.{handle-SaysStatus}
use wwfsdb.Api.Accounts.{accounts_get}
use wwfsdb.Api.Dashboard.{dashboard_stats_get, stats_object}
use wwfsdb.Api.Dashboard.Recent.{length-traverse}
use wwfsdb.Pages.Display.{Locale, AccountCard, StatCard, account_card}
use wwfsdb.Pages.Dashboard.{
  DashboardData, opened_dashboard, settled_page, both_successful, dashboard_fetched,
}
use wwfsdb.Pages.Dashboard.View.{
  DashboardView, TransactionLine, overview, nothing, dashboard_view, overview_of, transaction_line,
  account_entry, stat_cards,
}
use wwfsdb.Pages.Dashboard.Answers.{
  IsObject, fields, IsStats, all_stats, IsAccounts, all_accounts, dashboard_stats_get-Yields,
  accounts_get-Yields,
}

module _ (R : Runtime) where
  open R use {Num}

  items-array : (vs : List (Value Num)) → items (array_items vs) ≡ vs
  items-array [] = refl
  items-array (v ∷ vs) = ap (λ us. v ∷ us) (items-array vs)

  module _ (L : Locale Num) where
    account_entry-ok :
        (v : Value Num) → IsObject v → (c : AccountCard Num) × (account_entry R L v ≡ ok c)
    unfolding account_card
    account_entry-ok _ (fields fs) = (_, refl)

    transaction_line-ok :
        (v : Value Num) → IsObject v → (t : TransactionLine Num) × (transaction_line R L v ≡ ok t)
    unfolding transaction_line
    transaction_line-ok _ (fields fs) = (_, refl)

    -- The overview, with one card for each account and at most four transactions.
    pub record Shows (accounts : Value Num) (view : Result (DashboardView Num)) : Type 0 where
      pub rows : List (Value Num)
      pub is_array : accounts ≡ array rows
      pub cards : List StatCard
      pub shown : List (AccountCard Num)
      pub lines : List (TransactionLine Num)
      pub is_overview : view ≡ ok (overview cards shown lines)
      pub card_for_each : length shown ≡ length rows
      pub few_lines : length lines ≤ 4

    stat_cards-ok :
        (b i e c : Num) (recent : Value Num)
        → (cards : List StatCard) × (stat_cards R L
              (stats_object R (num b) (num i) (num e) (num c) recent)
            ≡ ok cards)
    unfolding stat_cards
    stat_cards-ok b i e c recent = (_, refl)

    overview_of-eq :
        (s a v : Value Num) (cards : List StatCard) (vs recent : List (Value Num))
        (shown : List (AccountCard Num)) (lines : List (TransactionLine Num))
        → stat_cards R L s ≡ ok cards
        → elements R a ≡ ok vs
        → traverse (account_entry R L) vs ≡ ok shown
        → get "recent_transactions" s ≡ ok v
        → elements R v ≡ ok recent
        → traverse (transaction_line R L) recent ≡ ok lines
        → overview_of R L (record { stats = s; accounts = a }) ≡ ok (overview cards shown lines)
    unfolding overview_of
    overview_of-eq s a v cards vs recent shown lines h1 h2 h3 h4 h5 h6 =
        rw (h1, h2, h3, h4, h5, h6) refl

    overview_of-Shows :
        (s a : Value Num)
        → IsStats R s
        → IsAccounts R a
        → Shows a (overview_of R L (record { stats = s; accounts = a }))
    overview_of-Shows _ _ (all_stats b i e c recent (objects, few)) (all_accounts vs all) =
        let (cards, ec) = stat_cards-ok b i e c (array recent) in
        let (shown, es) = traverse-ok (account_entry R L) IsObject account_entry-ok vs all in
        let (lines, el) =
          traverse-ok (transaction_line R L) IsObject transaction_line-ok recent objects in
        record {
          rows = vs;
          is_array = refl;
          cards = cards;
          shown = shown;
          lines = lines;
          is_overview =
              overview_of-eq _ _ _ cards vs recent shown lines ec (ap ok (items-array vs)) es refl
                (ap ok (items-array recent)) el;
          card_for_each = length-traverse (account_entry R L) vs es;
          few_lines =
              let same = length-traverse (transaction_line R L) recent el in
              omega (arith, same, few);
        }

  -- What is said of its success by a body, and read by the page.
  own-get :
      (body : Value Num) (b : Bool) → own "success" body ≡ bool b → get "success" body ≡ ok (bool b)
  own-get (obj fs) b h = ap ok h
  own-get undefined b h = absurd (ground arith)
  own-get null b h = absurd (ground arith)
  own-get (bool c) b h = absurd (ground arith)
  own-get (num n) b h = absurd (ground arith)
  own-get (str s) b h = absurd (ground arith)
  own-get (arr vs) b h = absurd (ground arith)

  refused :
      (status : ℕ) (body : Value Num)
      → own "success" body ≡ bool (ltb status 300)
      → ltb status 300 ≡ false
      → get "success" body ≡ ok (bool false)
  refused status body h e = own-get body false (h ∙ ap bool e)

  -- What the page shows behind its first two answers.
  abbrev pub Renders : Locale Num → (r r' : Response Num) → Result (DashboardView Num) → Type 0
  Renders L r r' view =
      ((ltb r.status 300 && ltb r'.status 300 ≡ true) × Shows L (own "accounts" r'.body) view)
      ⊎ ((ltb r.status 300 && ltb r'.status 300 ≡ false) × (view ≡ ok nothing))

unshown :
    (R : Runtime) (L : Locale R.Num) (found : Result (Option (DashboardData R.Num)))
    → found ≡ ok none
    → dashboard_view R L (settled_page R found opened_dashboard) ≡ ok nothing
unfolding dashboard_view
unshown R L (ok none) h = refl
unshown R L (ok (some d)) h = absurd (ground arith)
unshown R L (throw e) h = absurd (ground arith)

-- Where the page has the two bodies as the routes have made them (JSON turns a number that is NaN into
-- `null`), the page that waits for them leaves its spinner and no handler of its own throws. If neither status is an error, it shows one
-- card for each account of the answer and at most four transactions; if one of them is, it shows nothing.
pub dashboard_view-Renders :
    (R : Runtime) (L : Locale R.Num) (asked listed : Request R.Num) (w w' : World R.Server)
    (r r' : Response R.Num)
    → (dashboard_stats_get R asked w).0 ≡ ok r
    → (accounts_get R listed w').0 ≡ ok r'
    → Renders R L r r'
        (dashboard_view R L (dashboard_fetched R (ok r.body) (ok r'.body) opened_dashboard))
unfolding dashboard_view dashboard_fetched
dashboard_view-Renders R L asked listed w w' r r' h h' = elim (Bool-cases (ltb r.status 300)) [
  | inr bad ↦
      let said = refused R r.status r.body (handle-SaysStatus R get_dashboard asked w r h) bad in
      inr (rw bad refl, unshown R L (both_successful R r.body r'.body) (rw said refl))
  | inl good ↦
      let (v, is, e) = (dashboard_stats_get-Yields R asked).yields w r h good in
      elim (Bool-cases (ltb r'.status 300)) [
        | inr bad ↦
            let said =
              refused R r'.status r'.body (handle-SaysStatus R get_accounts listed w' r' h') bad in
            inr (
              rw (good, bad) refl,
              unshown R L (both_successful R r.body r'.body) (rw (e, said) refl),
            )
        | inl fine ↦
            let (a, is', e') = (accounts_get-Yields R listed).yields w' r' h' fine in
            inl (rw (good, fine) refl, rw (e, e') (overview_of-Shows R L v a is is'))
      ]
]
