-- ===== src/Orchestrator/Acceptance.antt =====
-- Valid subtasks get batches whenever they can be scheduled at all.
use mathlib.Core.Path.{subst}
use heike.Prelude.{
  ℕ, String, ◌≡◌, ◌≢◌, ◌⊎◌, refl, ap, sym, ◌∙◌, inl, inr, true, Option, none, some, List, [], ◌∷◌,
  map, arith, eq_iff, eq_refl, eqb, Dict, lookup, lookup-insert, length, mem, IsDistinct,
  Bool-cases, All,
}
use heike.Errors.{Result, ok, err}
use heike.Orchestrator.Batches.{
  SubTask, Tables, is_some, add_task, register_tasks, empty_tables, add_edge, add_edges, and_then,
  link_tasks, circular, checked, run_batches, resolve_execution_batches,
}
use heike.Orchestrator.Linking.{
  ids, deps_of, find_task, Registered, register_tasks-Registered, Linked, link_tasks-Linked,
  is_some-find_task,
}
use heike.Orchestrator.Rounds.{IsSorting, IsFinished}
use heike.Orchestrator.Verdict.{IsSchedule-of_full, IsDeadlock-of_rest, no_schedule}
use heike.Orchestrator.Schedule.{IsSchedule, run_prepared, or_else-none, length-given}

-- What the loops accept: ids that are set and stand once, and dependencies on other subtasks.
pub record IsValid (ss : List SubTask) : Type 0 where
  pub distinct : IsDistinct (ids ss)
  pub named : All (λ (s : SubTask). s.id ≢ "") ss
  pub known :
      All
        (λ (s : SubTask). All (λ (d : String). (mem d (ids ss) ≡ true) × (d ≢ s.id)) s.dependencies)
        ss

register_tasks-ok :
    (t : Tables) (ss : List SubTask)
    → IsDistinct (ids ss)
    → All (λ (s : SubTask). s.id ≢ "") ss
    → ((x : String) → mem x (ids ss) ≡ true → lookup x t.task_by_id ≡ none)
    → (t' : Tables) × (register_tasks t (map some ss) ≡ ok t')
unfolding register_tasks mem
register_tasks-ok t [] d n f = (t, refl)
register_tasks-ok t (s ∷ ss) d n f =
    let rest =
      register_tasks-ok (add_task t s) ss d.1 n.1
        (λ x h. ground (arith, f x, h, lookup-insert s.id x s t.task_by_id, eq_iff s.id x, d.0)) in
    (rest.0, ground (arith, rest.1, f s.id, eq_refl s.id, n.0, eq_iff s.id ""))

add_edges-ok :
    (t : Tables) (id : String) (deps : List String)
    → All (λ (d : String). (is_some (lookup d t.task_by_id) ≡ true) × (d ≢ id)) deps
    → (t' : Tables) × (add_edges t id deps ≡ ok t') × (t'.task_by_id ≡ t.task_by_id)
unfolding add_edges
add_edges-ok t id [] a = (t, refl, refl)
add_edges-ok t id (d ∷ deps) a =
    let rest = add_edges-ok (add_edge t id d) id deps a.1 in
    (rest.0, ground (arith, rest.1, a.0.0, a.0.1, eq_iff d id), rest.2)

link_tasks-ok :
    (t : Tables) (ss : List SubTask)
    → All
        (λ (s : SubTask).
          All
            (λ (d : String). (is_some (lookup d t.task_by_id) ≡ true) × (d ≢ s.id))
            s.dependencies)
        ss
    → (t' : Tables) × (link_tasks t (map some ss) ≡ ok t')
unfolding link_tasks
link_tasks-ok t [] a = (t, refl)
link_tasks-ok t (s ∷ ss) a =
    let e = add_edges-ok t s.id s.dependencies a.0 in
    let rest = link_tasks-ok e.0 ss (
      subst
        (λ (m : Dict SubTask).
          All
            (λ (r : SubTask).
              All (λ (d : String). (is_some (lookup d m) ≡ true) × (d ≢ r.id)) r.dependencies)
            ss)
        (sym e.2) a.1) in
    (rest.0, ap (λ (q : Result Tables). and_then q (λ u. link_tasks u (map some ss))) e.1 ∙ rest.1)

All-weaken {ℓ} :
    {A : Type ℓ} (P Q : A → Type 0) (xs : List A) → ((x : A) → P x → Q x) → All P xs → All Q xs
All-weaken P Q [] f a = tt
All-weaken P Q (x ∷ xs) f a = (f x a.0, All-weaken P Q xs f a.1)

sifted : List (Option SubTask) → List SubTask
sifted [] = []
sifted (none ∷ l) = sifted l
sifted (some s ∷ l) = s ∷ sifted l

sifted-given : (ss : List SubTask) → sifted (map some ss) ≡ ss
unfolding sifted
sifted-given [] = refl
sifted-given (s ∷ ss) = ap (λ (l : List SubTask). s ∷ l) (sifted-given ss)

given_tasks :
    (ss : List SubTask) (t : Tables) (r : Registered empty_tables (map some ss) t) → r.tasks ≡ ss
given_tasks ss t r = sym (sifted-given r.tasks) ∙ ap sifted (sym r.given) ∙ sifted-given ss

-- Registered subtasks are found by their ids.
Registered-known :
    (ss : List SubTask) (t : Tables) (x : String)
    → Registered empty_tables (map some ss) t
    → is_some (lookup x t.task_by_id) ≡ mem x (ids ss)
unfolding lookup
Registered-known ss t x r =
    ap is_some (r.found x ∙ or_else-none (find_task r.tasks x))
    ∙ is_some-find_task r.tasks x
    ∙ ap (λ (l : List SubTask). mem x (ids l)) (given_tasks ss t r)

-- The state that the two loops reach on valid subtasks.
record IsPrepared (ss : List SubTask) : Type 0 where
  registered : Tables
  linked : Tables
  register_ok : register_tasks empty_tables (map some ss) ≡ ok registered
  link_ok : link_tasks registered (map some ss) ≡ ok linked

prepared : (ss : List SubTask) → IsValid ss → IsPrepared ss
unfolding lookup
prepared ss v =
    let r = register_tasks-ok empty_tables ss v.distinct v.named (λ x h. refl) in
    let reg = register_tasks-Registered empty_tables (map some ss) r.0 r.1 in
    let l = link_tasks-ok r.0 ss (
      All-weaken _ _ ss
        (λ s. All-weaken _ _ s.dependencies (λ d k. (Registered-known ss r.0 d reg ∙ k.0, k.1)))
        v.known) in
    record { registered = r.0; linked = l.0; register_ok = r.1; link_ok = l.1 }

-- What the loop over valid subtasks leaves to the last test.
record IsRun (sorted : List String → List String) (ss : List SubTask) : Type 0 where
  batches : List (List SubTask)
  processed : ℕ
  result :
      resolve_execution_batches sorted (map some ss)
      ≡ checked (length (map some ss)) (some (batches, processed))
  finished : IsFinished ss [] batches processed
  edges : (x : String) → All (λ (d : String). mem d (ids ss) ≡ true) (deps_of ss x)

IsRun-valid :
    (sorted : List String → List String) (ss : List SubTask)
    → IsSorting sorted
    → IsValid ss
    → IsRun sorted ss
unfolding resolve_execution_batches
IsRun-valid sorted ss sorts v =
    let p = prepared ss v in
    let reg = register_tasks-Registered empty_tables (map some ss) p.registered p.register_ok in
    let same = given_tasks ss p.registered reg in
    let l = link_tasks-Linked p.registered ss p.linked p.link_ok in
    let f =
      run_prepared sorted sorts (map some ss) p.registered p.linked reg
        (subst (λ (q : List SubTask). Linked p.registered q p.linked) (sym same) l) in
    record {
      batches = f.0;
      processed = f.1;
      result =
          ap
            (λ (q : Result Tables).
              run_batches sorted (length (map some ss))
                (and_then q (λ t. link_tasks t (map some ss))))
            p.register_ok
          ∙ ap (run_batches sorted (length (map some ss))) p.link_ok
          ∙ f.2;
      finished = subst (λ (q : List SubTask). IsFinished q [] f.0 f.1) same f.3;
      edges = λ x.
          All-weaken _ _ (deps_of ss x) (λ d k. sym (Registered-known ss p.registered d reg) ∙ k)
            (l.edges x);
    }

-- On subtasks whose ids are set and stand once, and which depend on other subtasks only, the
-- batches are a schedule, or the error is that of a circular dependency and no schedule exists.
pub resolve_execution_batches-decides :
    (sorted : List String → List String) (ss : List SubTask)
    → IsSorting sorted
    → IsValid ss
    → ((bs : List (List SubTask)) × (resolve_execution_batches sorted (map some ss) ≡ some (ok bs))
        × IsSchedule ss bs)
      ⊎ ((resolve_execution_batches sorted (map some ss) ≡ some (err circular))
          × ((bs : List (List SubTask)) → ¬ IsSchedule ss bs))
unfolding resolve_execution_batches
resolve_execution_batches-decides sorted ss sorts v =
    let r = IsRun-valid sorted ss sorts v in
    elim (Bool-cases (eqb r.processed (length (map some ss)))) [
      | inl full ↦ inl (
        r.batches,
        r.result ∙ ground (arith, full),
        IsSchedule-of_full ss v.distinct r.batches r.processed r.finished
            (ground (arith, full, length-given ss)),
      )
      | inr short ↦ inr (
        r.result ∙ ground (arith, short),
        no_schedule ss v.distinct (
            IsDeadlock-of_rest ss v.distinct r.batches r.processed r.finished
              (λ e. ground (arith, short, e, length-given ss)) r.edges),
      )
    ]
