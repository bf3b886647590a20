-- ===== src/Scripts/Migration/Outcome.antt =====
-- What the exit code of the migration says, and what it posts.
use wwfsdb.Base.{
  ◌≡◌, refl, ap, sym, subst, ◌∙◌, ℕ, ◌+◌, ◌<◌, ◌⊎◌, inl, inr, Bool, true, false, [], arith,
  if◌then◌else◌, Bool-cases, ltb,
}
use wwfsdb.Js.Value.{Result, ok, throw}
use wwfsdb.Js.Runtime.{Runtime}
use wwfsdb.Js.Action.{World, pure, lift, observe, outside_value, catch, ◌>>=◌}
use wwfsdb.Scripts.{Node, Script, read_counters, sleep}
use wwfsdb.Scripts.Migration.{
  MigrationState, schema_statements, run_steps, run_migration, none_failed, migrate, unmigrated,
}
use wwfsdb.Scripts.Migration.Steps.{requests, completions, recorded, Finished, run_steps-Finished}

-- As many statements are counted as completed as are answered well, and the exit code is 0 with all the
-- statements completed, or 1 with one that failed.
abbrev pub Verdict : {R : Runtime} → Node R → R.Server → Result ℕ → MigrationState → Type 0
Verdict N o code s =
    (s.completed ≡ completions N schema_statements ([], 1) (N.wait 1000 o))
    × (s.completed + s.failed ≡ 18)
    × (((code ≡ ok 0) × (s.completed ≡ 18)) ⊎ ((code ≡ ok 1) × (s.completed < 18)))

abbrev code_of : Bool → ℕ
code_of success = if success then 0 else 1

zero_add : (n : ℕ) → 0 + n ≡ n
zero_add n = omega arith

split :
    (s : MigrationState)
    → s.completed + s.failed ≡ 18
    → ((ok (code_of (none_failed s)) ≡ ok 0) × (s.completed ≡ 18))
      ⊎ ((ok (code_of (none_failed s)) ≡ ok 1) × (s.completed < 18))
split s total = elim (Bool-cases (ltb 0 s.failed)) [
  | inl e ↦ inr (ap (λ b. ok (code_of (if b then false else true))) e, ground (arith, e, total))
  | inr e ↦ inl (ap (λ b. ok (code_of (if b then false else true))) e, ground (arith, e, total))
]

verdict :
    {R : Runtime} (N : Node R) (o : R.Server) (s : MigrationState)
    → s.completed ≡ completions N schema_statements ([], 1) (N.wait 1000 o)
    → s.completed + s.failed ≡ 18
    → Verdict N o (ok (code_of (none_failed s))) s
verdict N o s done total = (done, total, split s total)

module _ {R : Runtime} (N : Node R) (o : R.Server) where
  -- After the pause.
  awake : World (Script R MigrationState)
  awake = (sleep N 1000 (unmigrated o)).1

  loop_end : World (Script R MigrationState)
  loop_end = (run_steps N 1 schema_statements awake).1

  finished : Finished N schema_statements awake (run_steps N 1 schema_statements awake)
  finished = run_steps-Finished N 1 schema_statements awake

  migrate-eq :
      migrate N (unmigrated o) ≡ (ok (code_of (none_failed loop_end.server.counters)), loop_end)
  unfolding migrate run_migration ◌>>=◌ catch sleep outside_value read_counters observe pure awake
      loop_end
  migrate-eq = let (r, w) = run_steps N 1 schema_statements awake in go r w finished.result
    where
      go :
          (r : Result (Unit {0})) (w : World (Script R MigrationState))
          → r ≡ ok tt
          → (catch
              ((lift r >>= λ _. read_counters none_failed) >>= λ success. pure (code_of success))
              (λ e. pure 1)
              w)
            ≡ (ok (code_of (none_failed w.server.counters)), w)
      go (ok tt) w h = refl
      go (throw e) w h = absurd (ground arith)

-- Whatever the server answers, and even where a statement cannot be sent, signed or read, the migration
-- comes to its end: each of the 18 statements is counted once, as completed or as failed, and as completed
-- are counted as many as the server answers, asked in turn, without an error. The exit code is 0 when all
-- 18 are completed, and 1 when fewer are.
pub migrate-Verdict :
    {R : Runtime} (N : Node R) (o : R.Server)
    → Verdict N o (migrate N (unmigrated o)).0 (migrate N (unmigrated o)).1.server.counters
unfolding loop_end awake sleep outside_value
migrate-Verdict {R} N o =
    subst (λ x. Verdict N o x.0 x.1.server.counters) (sym (migrate-eq N o))
      (verdict N o (loop_end N o).server.counters ((finished N o).done ∙ zero_add _)
        (finished N o).total)

-- A statement that fails does not stop those after it: the migration posts a request for each statement
-- that can be signed, in the order of the schema and numbered in turn, whatever the server answers.
pub migrate-requests :
    {R : Runtime} (N : Node R) (o : R.Server)
    → recorded N (migrate N (unmigrated o)).1 ≡ requests N schema_statements ([], 1)
unfolding loop_end awake sleep outside_value
migrate-requests {R} N o = ap (λ x. recorded N x.1) (migrate-eq N o) ∙ (finished N o).record_kept
