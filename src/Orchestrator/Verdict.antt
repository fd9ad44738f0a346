-- ===== src/Orchestrator/Verdict.antt =====
-- Batches are returned exactly when the subtasks can be scheduled.
use mathlib.Core.Path.{subst}
use heike.Prelude.{
  ℕ, ◌<◌, String, ◌≡◌, ◌≢◌, ◌⊎◌, refl, ap, sym, ◌∙◌, inl, inr, true, false, Option, some, List, [],
  ◌∷◌, ◌++◌, map, arith, ◌==◌, eq_iff, eq_refl, length, mem, mem-append, IsDistinct, Within,
  Within-of_length, length-le_of_Within, Bool-cases, All,
}
use heike.Errors.{Result, ok, err}
use heike.Orchestrator.Batches.{
  SubTask, Tables, register_tasks, empty_tables, and_then, link_tasks, checked, run_batches,
  resolve_execution_batches,
}
use heike.Orchestrator.Counting.{open_names}
use heike.Orchestrator.Linking.{
  ids, deps_of, find_task, register_tasks-Registered, link_tasks-Linked, and_then-eq-ok,
  is_some-find_task, find_task-deps_of,
}
use heike.Orchestrator.Rounds.{scheduled, IsOrdered, IsGiven, IsSorting, IsFinished}
use heike.Orchestrator.Schedule.{IsSchedule, IsDeadlock, run_prepared, length-ids, length-given}

missing :
    (xs e : List String) → ((x : String) × (mem x xs ≡ true) × (mem x e ≡ false)) ⊎ Within xs e
unfolding mem
missing [] e = inr (λ x h. ground (arith, h))
missing (x ∷ xs) e = elim (missing xs e) [
  | inl (y, there, absent) ↦ inl (y, ground (arith, there), absent)
  | inr rest ↦ elim (Bool-cases (mem x e)) [
    | inl here ↦ inr (λ y h. ground (arith, h, rest y, here, eq_iff x y))
    | inr absent ↦ inl (x, ground (arith, eq_refl x), absent)
  ]
]

open_dependency :
    (e ys : List String)
    → 0 < open_names e ys
    → (y : String) × (mem y ys ≡ true) × (mem y e ≡ false)
unfolding mem
open_dependency e [] h = absurd (omega (arith, h))
open_dependency e (y ∷ ys) h = elim (Bool-cases (mem y e)) [
  | inl done ↦
      let r = open_dependency e ys (ground (arith, h, done)) in (r.0, ground (arith, r.1), r.2)
  | inr waiting ↦ (y, ground (arith, eq_refl y), waiting)
]

pub All-mem :
    (P : String → Type 0) (ys : List String) (y : String) → All P ys → mem y ys ≡ true → P y
unfolding mem
All-mem P [] y a h = ground (arith, h)
All-mem P (x ∷ xs) y a h = elim (Bool-cases (x == y)) [
  | inl same ↦ rw (← (eq_iff x y).0 same) a.0
  | inr other ↦ All-mem P xs y a.1 (ground (arith, h))
]

module _ (ss : List SubTask) (once : IsDistinct (ids ss)) where
  pub IsSchedule-of_full :
      (bs : List (List SubTask)) (n : ℕ) → IsFinished ss [] bs n → n ≡ length ss → IsSchedule ss bs
  IsSchedule-of_full bs n f full =
      let all =
        Within-of_length (scheduled bs) (ids ss) f.distinct f.within
          (omega (arith, full, f.counted, length-ids ss)) in
      record {
        distinct = f.distinct;
        complete = λ x. ground (arith, all x, f.within x);
        ordered = f.ordered;
        given = f.given;
      }

  pub IsDeadlock-of_rest :
      (bs : List (List SubTask)) (n : ℕ)
      → IsFinished ss [] bs n
      → n ≢ length ss
      → ((x : String) → All (λ (d : String). mem d (ids ss) ≡ true) (deps_of ss x))
      → IsDeadlock ss
  IsDeadlock-of_rest bs n f short edges = elim (missing (ids ss) (scheduled bs)) [
    | inl (x, there, absent) ↦ record {
      done = scheduled bs;
      left = x;
      left_known = there;
      left_open = absent;
      waits = λ z known undone.
          let r = open_dependency (scheduled bs) (deps_of ss z) (f.stuck z known undone) in
          (
            r.0,
            r.1,
            All-mem (λ (d : String). mem d (ids ss) ≡ true) (deps_of ss z) r.0 (edges z) r.1,
            r.2,
          );
    }
    | inr all ↦ absurd (
        short (
          omega (
            arith,
            f.counted,
            length-ids ss,
            length-le_of_Within (ids ss) (scheduled bs) once all,
            length-le_of_Within (scheduled bs) (ids ss) f.distinct f.within,
          )))
  ]

  batch-Within :
      (k : IsDeadlock ss) (d : List String) (b : List SubTask)
      → Within d k.done
      → All (λ (s : SubTask). All (λ (x : String). mem x d ≡ true) s.dependencies) b
      → All (λ (s : SubTask). find_task ss s.id ≡ some s) b
      → Within (ids b) k.done
  unfolding mem
  batch-Within k d [] w o g = λ x h. ground (arith, h)
  batch-Within k d (s ∷ b) w o g = λ x h. elim (Bool-cases (mem s.id k.done)) [
    | inl done ↦ ground (arith, h, done, eq_iff s.id x, batch-Within k d b w o.1 g.1 x)
    | inr waiting ↦
        let y = k.waits s.id (ground (arith, is_some-find_task ss s.id, g.0)) waiting in
        let own : mem y.0 s.dependencies ≡ true =
          ap (mem y.0) (sym (find_task-deps_of ss s.id s once g.0).1) ∙ y.1 in
        ground
          (arith, y.3, w y.0 (All-mem (λ (z : String). mem z d ≡ true) s.dependencies y.0 o.0 own))
  ]

  -- In a deadlock every batch of an order holds names that are done.
  ordered-Within :
      (k : IsDeadlock ss) (d : List String) (bs : List (List SubTask))
      → Within d k.done
      → IsOrdered d bs
      → IsGiven ss bs
      → Within (scheduled bs) k.done
  ordered-Within k d [] w o g = λ x h. unfold mem in ground (arith, h)
  ordered-Within k d (b ∷ bs) w o g =
      let here = batch-Within k d b w o.0 g.0 in
      let rest =
        ordered-Within k (d ++ ids b) bs
          (λ x h. ground (arith, h, mem-append x d (ids b), w x, here x)) o.1 g.1 in
      λ x h. ground (arith, h, mem-append x (ids b) (scheduled bs), here x, rest x)

  pub no_schedule : IsDeadlock ss → (bs : List (List SubTask)) → IsSchedule ss bs → ⊥
  no_schedule k bs s = ground (
    arith,
    k.left_open,
    k.left_known,
    s.complete k.left,
    ordered-Within k [] bs (λ x h. unfold mem in ground (arith, h)) s.ordered s.given k.left,
  )

run_batches-ok :
    (sorted : List String → List String) (n : ℕ) (p : Result Tables) (bs : List (List SubTask))
    → run_batches sorted n p ≡ some (ok bs)
    → (t : Tables) × (p ≡ ok t)
run_batches-ok sorted n (ok t) bs h = (t, refl)
run_batches-ok sorted n (err e) bs h = ground (arith, h)

checked-ok :
    (n : ℕ) (bs : List (List SubTask)) (processed : ℕ) (cs : List (List SubTask))
    → checked n (some (bs, processed)) ≡ some (ok cs)
    → (processed ≡ n) × (bs ≡ cs)
checked-ok n bs processed cs h = (ground (arith, h), ground (arith, h))

-- The batches that are returned hold every subtask once, each after all that it depends on, and are
-- made of the subtasks given: none was nil, and no id stood twice.
pub resolved-IsSchedule :
    (sorted : List String → List String) (subs : List (Option SubTask)) (bs : List (List SubTask))
    → IsSorting sorted
    → resolve_execution_batches sorted subs ≡ some (ok bs)
    → (ss : List SubTask) × (subs ≡ map some ss) × IsDistinct (ids ss) × IsSchedule ss bs
unfolding resolve_execution_batches
resolved-IsSchedule sorted subs bs sorts h =
    let prepared =
      run_batches-ok sorted (length subs)
        (and_then (register_tasks empty_tables subs) (λ t. link_tasks t subs)) bs h in
    let linked =
      and_then-eq-ok (register_tasks empty_tables subs) (λ t. link_tasks t subs) prepared.0
        prepared.1 in
    let r = register_tasks-Registered empty_tables subs linked.0 linked.1 in
    let l =
      link_tasks-Linked linked.0 r.tasks prepared.0
        (ap (link_tasks linked.0) (sym r.given) ∙ linked.2) in
    let f = run_prepared sorted sorts subs linked.0 prepared.0 r l in
    let e =
      checked-ok (length subs) f.0 f.1 bs
        (sym f.2 ∙ ap (run_batches sorted (length subs)) (sym prepared.1) ∙ h) in
    (
      r.tasks,
      r.given,
      r.distinct,
      IsSchedule-of_full r.tasks r.distinct bs f.1
          (subst (λ (q : List (List SubTask)). IsFinished r.tasks [] q f.1) e.1 f.3)
          (omega (arith, e.0, length-given r.tasks, ap length r.given)),
    )
