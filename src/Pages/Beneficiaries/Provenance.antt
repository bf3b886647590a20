-- ===== src/Pages/Beneficiaries/Provenance.antt =====
-- Where the rows that the page shows come from, whatever calls are pending and however they are
-- answered.
use wwfsdb.Base.{◌≡◌, refl, subst, sym, inl, inr, Bool, List, [], ◌∷◌, ◌++◌, All, arith}
use wwfsdb.Js.Value.{Value, Result, ok, get, array}
use wwfsdb.Js.Runtime.{Runtime}
use wwfsdb.Api.Transactions.Filtering.{Result-cases, filter_rows-eq-ok}
use wwfsdb.Api.Transactions.{filter_rows}
use wwfsdb.Pages.Settling.{
  on_success-keeps, Succeeded, items-array_items, All-append_one, All-filter,
}
use wwfsdb.Pages.Beneficiaries.{
  BeneficiaryForm, BeneficiariesPage, opened_page, listed, added, removed, list_answered,
  add_answered, is_other, delete_answered,
}

module _ (R : Runtime) where
  open R use {Num}

  -- A call that was sent and is not answered yet, with the page of the render that sent it.
  pub data Call : Type 0 where
    listing : Call
    adding : BeneficiariesPage Num → Call
    deleting : BeneficiariesPage Num → Value Num → Call

  abbrev pub answered : Call → Result (Value Num) → BeneficiariesPage Num → BeneficiariesPage Num
  answered listing answer p = list_answered R answer p
  answered (adding seen) answer p = add_answered R seen answer p
  answered (deleting seen id) answer p = delete_answered R seen id answer p

  pub record Tab : Type 0 where
    pub page : BeneficiariesPage Num
    pub pending : List Call

  module _ (P : Value Num → Type 0) where
    -- A list of rows that satisfy `P`.
    abbrev pub Rows : Value Num → Type 0
    Rows v = (rows : List (Value Num)) × (v ≡ array rows) × All P rows

    -- A server that sends, where it says success, lists and new rows that satisfy `P`; what it sends
    -- where it does not say so is arbitrary.
    abbrev pub Trusted : Call → Result (Value Num) → Type 0
    Trusted listing answer =
        (body v : Value Num)
        → answer ≡ ok body
        → Succeeded R body
        → get "beneficiaries" body ≡ ok v
        → Rows v
    Trusted (adding seen) answer =
        (body v : Value Num)
        → answer ≡ ok body
        → Succeeded R body
        → get "beneficiary" body ≡ ok v
        → P v
    Trusted (deleting seen id) answer = Unit

    -- What happens to the page: a field is edited, the dialog opens or closes, a call is sent, or one of
    -- the pending calls, not always the oldest, is answered.
    pub data Step : Tab → Tab → Type 0 where
      edit :
          (t : Tab) (form : BeneficiaryForm) (open_now : Bool)
          → Step t (record t { page = record t.page { form = form; dialog_open = open_now } })
      send_add : (t : Tab) → Step t (record t { pending = adding t.page ∷ t.pending })
      send_delete :
          (t : Tab) (id : Value Num)
          → Step t (record t { pending = deleting t.page id ∷ t.pending })
      answer :
          (t : Tab) (before later : List Call) (c : Call) (r : Result (Value Num))
          → t.pending ≡ before ++ c ∷ later
          → Trusted c r
          → Step t (record { page = answered c r t.page; pending = before ++ later })

    pub data Reach (s : Tab) : Tab → Type 0 where
      here : Reach s s
      next : {t u : Tab} → Reach s t → Step t u → Reach s u

    -- The rows of the page and of every render that a pending call remembers.
    abbrev pub SeenBy : Call → Type 0
    SeenBy listing = Unit
    SeenBy (adding seen) = Rows seen.beneficiaries
    SeenBy (deleting seen id) = Rows seen.beneficiaries

    pub record IsGenuine (t : Tab) : Type 0 where
      pub shown : Rows t.page.beneficiaries
      pub remembered : All SeenBy t.pending

    All-middle :
        (before later : List Call) (c : Call)
        → All SeenBy (before ++ c ∷ later)
        → SeenBy c × All SeenBy (before ++ later)
    All-middle [] later c h = h
    All-middle (b ∷ before) later c h = let (k, m) = All-middle before later c h.1 in (k, (h.0, m))

    -- A page's rows, as what a handler keeps.
    abbrev Good : BeneficiariesPage Num → Type 0
    Good p = Rows p.beneficiaries

    list_answered-Rows :
        (r : Result (Value Num)) (p : BeneficiariesPage Num)
        → Trusted listing r
        → Good p
        → Good (list_answered R r p)
    unfolding list_answered
    list_answered-Rows r p trusted h = on_success-keeps R r (listed R p) p Good h λ body p' a s e.
        elim (Result-cases (get "beneficiaries" body)) [
          | inr (x, b) ↦ absurd (let m = rw b at e in ground arith)
          | inl (v, b) ↦
              let m = rw b at e in
              let same : v ≡ p'.beneficiaries = ground arith in
              subst Rows same (trusted body v a s b)
        ]

    add_answered-Rows :
        (seen : BeneficiariesPage Num) (r : Result (Value Num)) (p : BeneficiariesPage Num)
        → Trusted (adding seen) r
        → Good seen
        → Good p
        → Good (add_answered R seen r p)
    unfolding add_answered
    add_answered-Rows seen r p trusted (rows, is_rows, good) h =
        on_success-keeps R r (added R seen p) p Good h λ body p' a s e.
          elim (Result-cases (get "beneficiary" body)) [
            | inr (x, b) ↦
                absurd (let m = rw (is_rows, items-array_items rows, b) at e in ground arith)
            | inl (v, b) ↦
                let m = rw (is_rows, items-array_items rows, b) at e in
                let same : array (rows ++ v ∷ []) ≡ p'.beneficiaries = ground arith in
                (rows ++ v ∷ [], sym same, All-append_one P rows v good (trusted body v a s b))
          ]

    delete_answered-Rows :
        (seen : BeneficiariesPage Num) (id : Value Num) (r : Result (Value Num))
        (p : BeneficiariesPage Num)
        → Good seen
        → Good p
        → Good (delete_answered R seen id r p)
    unfolding delete_answered
    delete_answered-Rows seen id r p (rows, is_rows, good) h =
        on_success-keeps R r (λ body. removed R seen p id) p Good h
          λ body p' a s e. elim (Result-cases (filter_rows (is_other R id) rows)) [
            | inr (x, b) ↦
                absurd (let m = rw (is_rows, items-array_items rows, b) at e in ground arith)
            | inl (kept, b) ↦
                let m = rw (is_rows, items-array_items rows, b) at e in
                let same : array kept ≡ p'.beneficiaries = ground arith in
                (
                  kept,
                  sym same,
                  subst (All P) (sym (filter_rows-eq-ok (is_other R id) rows b))
                      (All-filter P _ rows good),
                )
          ]

    answered-Rows :
        (c : Call) (r : Result (Value Num)) (p : BeneficiariesPage Num)
        → Trusted c r
        → SeenBy c
        → Good p
        → Good (answered c r p)
    answered-Rows listing r p trusted seen h = list_answered-Rows r p trusted h
    answered-Rows (adding q) r p trusted seen h = add_answered-Rows q r p trusted seen h
    answered-Rows (deleting q id) r p trusted seen h = delete_answered-Rows q id r p seen h

    Step-IsGenuine : {t u : Tab} → Step t u → IsGenuine t → IsGenuine u
    Step-IsGenuine (edit t form open_now) g = record { shown = g.shown; remembered = g.remembered }
    Step-IsGenuine (send_add t) g = record { shown = g.shown; remembered = (g.shown, g.remembered) }
    Step-IsGenuine (send_delete t id) g = record {
      shown = g.shown;
      remembered = (g.shown, g.remembered);
    }
    Step-IsGenuine (answer t before later c r e trusted) g =
        let (seen, others) = All-middle before later c (subst (All SeenBy) e g.remembered) in
        record { shown = answered-Rows c r t.page trusted seen g.shown; remembered = others }

  -- The page as it is mounted: its list is being fetched.
  abbrev pub mounted : Tab
  mounted = record { page = opened_page; pending = listing ∷ [] }

-- The user edits the form, adds and deletes, and the pending calls are answered in any order, with
-- failures too. A property that all rows have in the answers which say success, of lists and of new rows,
-- is then one of all the rows shown; no row comes from an answer that does not say success.
pub Reach-IsGenuine :
    {R : Runtime} {P : Value R.Num → Type 0} {t : Tab R} → Reach R P (mounted R) t → IsGenuine R P t
Reach-IsGenuine here = record { shown = ([], refl, tt); remembered = (tt, tt) }
Reach-IsGenuine {R} {P} (next r st) = Step-IsGenuine R P st (Reach-IsGenuine r)
