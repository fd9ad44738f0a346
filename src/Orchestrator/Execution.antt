-- ===== src/Orchestrator/Execution.antt =====
-- Which results the execution of subtasks gives.
use heike.Prelude.{
  ℕ, zero, suc, ◌+◌, ◌≤◌, ◌<◌, String, ◌≡◌, ◌⊎◌, refl, ap, ◌∙◌, inl, inr, Bool, true, false, ◌&&◌,
  Option, none, some, List, [], ◌∷◌, arith, Dict, lookup, Option-cases,
}
use heike.Errors.{Err, Result, ok, err}
use heike.Orchestrator.Batches.{SubTask}
use heike.Orchestrator.Dag.{
  SubTaskResult, Env, failed_dependency, dependency_outputs, backed_off, attempts_from,
  execute_task,
}

abbrev is_ok : Result String → Bool
is_ok (ok a) = true
is_ok (err e) = false

-- After `n` runs of the engine, from the attempt `a` on, a success is the answer of the last one,
-- and the ones before it failed.
pub record IsLastAnswer (env : Env) (t : SubTask) (outs : List (String × String)) (a : ℕ)
    (r : SubTaskResult) (n : ℕ) : Type 0 where
  pub attempt : ℕ
  pub runs : n ≡ suc attempt
  pub answer : env.run t outs (a + attempt) ≡ ok r.output
  pub earlier : (j : ℕ) → j < attempt → is_ok (env.run t outs (a + j)) ≡ false

runs_bounded :
    (env : Env) (t : SubTask) (outs : List (String × String)) (left a : ℕ) (last : Option Err)
    → (attempts_from env t outs left a last).1 ≤ left
unfolding attempts_from
runs_bounded env t outs zero a last = omega arith
runs_bounded env t outs (suc left) a last =
    let later = λ (e : Err). runs_bounded env t outs left (suc a) (some e) in grind (arith, later)

Result-cases : {A : Type 0} (r : Result A) → ((a : A) × (r ≡ ok a)) ⊎ ((e : Err) × (r ≡ err e))
Result-cases (ok a) = inl (a, refl)
Result-cases (err e) = inr (e, refl)

-- What a failed attempt leaves: a failure, or what the later ones give.
backed_off-cases :
    (id : String) (left : ℕ) (b : Option Err) (later : SubTaskResult × ℕ)
    → ((backed_off id left b later).0.success ≡ false) ⊎ (backed_off id left b later ≡ later)
backed_off-cases id zero b later = inr refl
backed_off-cases id (suc left) none later = inr refl
backed_off-cases id (suc left) (some e) later = inl refl

one_more :
    (env : Env) (t : SubTask) (outs : List (String × String)) (a : ℕ) (r : SubTaskResult) (n : ℕ)
    (e : Err)
    → env.run t outs a ≡ err e
    → IsLastAnswer env t outs (suc a) r n
    → IsLastAnswer env t outs a r (suc n)
one_more env t outs a r n e failed l = record {
  attempt = suc l.attempt;
  runs = ap suc l.runs;
  answer = ap (env.run t outs) (omega arith) ∙ l.answer;
  earlier = λ j h. before j h;
}
  where
    before : (j : ℕ) → j < suc l.attempt → is_ok (env.run t outs (a + j)) ≡ false
    before zero h = ap (λ (k : ℕ). is_ok (env.run t outs k)) (omega arith) ∙ ap is_ok failed
    before (suc j) h =
        ap (λ (k : ℕ). is_ok (env.run t outs k)) (omega arith) ∙ l.earlier j (omega arith)

IsLastAnswer-attempts_from :
    (env : Env) (t : SubTask) (outs : List (String × String)) (left a : ℕ) (last : Option Err)
    → (attempts_from env t outs left a last).0.success ≡ true
    → IsLastAnswer env t outs a
        (attempts_from env t outs left a last).0
        (attempts_from env t outs left a last).1
unfolding attempts_from
IsLastAnswer-attempts_from env t outs zero a last h = ground (arith, h)
IsLastAnswer-attempts_from env t outs (suc left) a last h =
    elim (Option-cases (env.done_before_attempt t.id a)) [
      | inr (x, stopped) ↦ ground (arith, h, stopped)
      | inl free ↦ elim (Result-cases (env.run t outs a)) [
        | inl (out, answer) ↦
            rw (free, attempts_from)
              (rw answer (record {
                attempt = 0;
                runs = refl;
                answer = ap (env.run t outs) (omega arith) ∙ answer;
                earlier = λ j k. absurd (omega (arith, k));
              }))
        | inr (e, failed) ↦
            elim (backed_off-cases t.id left (env.done_in_backoff t.id a)
              (attempts_from env t outs left (suc a) (some e))) [
                | inl fails ↦ ground (arith, h, free, failed, fails)
                | inr goes ↦
                    rw (free, attempts_from)
                      (rw failed (
                        rw goes (
                          one_more env t outs a _ _ e failed (
                            IsLastAnswer-attempts_from env t outs left (suc a) (some e)
                              (ground (arith, h, free, failed, goes))))))
              ]
      ]
    ]

abbrev pub success_of : Option SubTaskResult → Bool
success_of none = false
success_of (some r) = r.success

-- Every name has a successful result.
abbrev pub all_succeeded : (String → Option SubTaskResult) → List String → Bool
all_succeeded find [] = true
all_succeeded find (d ∷ ds) = success_of (find d) && all_succeeded find ds

all_succeeded_of_none :
    (m : Dict SubTaskResult) (ds : List String)
    → failed_dependency m ds ≡ none
    → all_succeeded (λ d. lookup d m) ds ≡ true
unfolding failed_dependency
all_succeeded_of_none m [] h = refl
all_succeeded_of_none m (d ∷ ds) h = ground (arith, h, all_succeeded_of_none m ds)

-- A subtask that succeeds had a successful result for each of its dependencies, ran the engine at
-- most as often as the limit says, and has the output of the last run, the ones before it failed.
pub execute_task-IsLastAnswer :
    (env : Env) (retry_max : ℕ) (t : SubTask) (m : Dict SubTaskResult)
    → (execute_task env retry_max t m).0.success ≡ true
    → (all_succeeded (λ d. lookup d m) t.dependencies ≡ true)
      × ((execute_task env retry_max t m).1 ≤ retry_max)
      × IsLastAnswer env t
          (dependency_outputs m t.dependencies)
          0
          (execute_task env retry_max t m).0
          (execute_task env retry_max t m).1
unfolding execute_task
execute_task-IsLastAnswer env retry_max t m h =
    elim (Option-cases (failed_dependency m t.dependencies)) [
      | inr (e, stopped) ↦ ground (arith, h, stopped)
      | inl free ↦
          rw (free, execute_task)
            (
              all_succeeded_of_none m t.dependencies free,
              runs_bounded env t (dependency_outputs m t.dependencies) retry_max 0 none,
              IsLastAnswer-attempts_from env t (dependency_outputs m t.dependencies) retry_max 0
                  none (ground (arith, h, free)),
            )
    ]
