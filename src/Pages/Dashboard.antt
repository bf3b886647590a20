-- ===== src/Pages/Dashboard.antt =====
-- app/(dashboard)/dashboard/page.tsx
pub mod View
pub mod Answers
pub mod Rendering
use wwfsdb.Base.{Bool, true, false, Option, none, some, if◌then◌else◌}
use wwfsdb.Js.Value.{Value, Result, ok, throw, get}
use wwfsdb.Js.Convert.{truthy}
use wwfsdb.Js.Runtime.{Runtime}
use wwfsdb.Rpc.Outcome.{bind}

pub record DashboardData (N : Type 0) : Type 0 where
  pub stats : Value N
  pub accounts : Value N

pub record DashboardPage (N : Type 0) : Type 0 where
  pub shown : Option (DashboardData N)
  pub loading : Bool

abbrev pub opened_dashboard : {N : Type 0} → DashboardPage N
opened_dashboard = record { shown = none; loading = true }

module _ (R : Runtime) where
  open R use {Num}

  -- the data of two answers, if both say success; the second is only asked if the first says so
  abbrev pub both_successful : (stats accounts : Value Num) → Result (Option (DashboardData Num))
  both_successful stats accounts = bind (get "success" stats) λ s.
      if truthy R s
      then (bind (get "success" accounts) λ a.
          if truthy R a
          then (bind (get "stats" stats) λ v.
              bind (get "accounts" accounts) λ w. ok (some (record { stats = v; accounts = w })))
          else ok none)
      else ok none

  -- The page after the `try`, its `finally` included.
  abbrev pub settled_page :
      Result (Option (DashboardData Num)) → DashboardPage Num → DashboardPage Num
  settled_page (ok (some d)) p = record { shown = some d; loading = false }
  settled_page (ok none) p = record p { loading = false }
  settled_page (throw e) p = record p { loading = false }

  -- `fetchData` once both are answered; the arguments are what the two `json()` give
  unfoldable pub dashboard_fetched :
      (stats accounts : Result (Value Num)) → DashboardPage Num → DashboardPage Num
  dashboard_fetched stats accounts p =
      settled_page (bind stats (λ a. bind accounts (both_successful a))) p
