-- ===== src/Orchestrator/Schedule.antt =====
-- What `resolveExecutionBatches` returns.
use heike.Prelude.{
  ℕ, suc, String, ◌≡◌, refl, ap, ◌∙◌, inl, inr, true, false, ◌&&◌, Option, none, some, List, [],
  ◌∷◌, map, arith, eq_iff, eqb, Dict, lookup, Unique, length, mem, IsDistinct, Bool-cases,
}
use heike.Errors.{ok}
use heike.Orchestrator.Batches.{
  SubTask, Tables, is_some, names_of, empty_tables, free, checked, run_batches,
}
use heike.Orchestrator.Counting.{count, open_names, degree}
use heike.Orchestrator.Linking.{ids, deps_of, find_task, or_else, Registered, Linked}
use heike.Orchestrator.Rounds.{
  scheduled, IsOrdered, IsGiven, IsSorting, IsRound, IsFinished, batches_from-IsFinished,
}

-- Every subtask once, and after all that it depends on.
pub record IsSchedule (ss : List SubTask) (bs : List (List SubTask)) : Type 0 where
  pub distinct : IsDistinct (scheduled bs)
  pub complete : (x : String) → mem x (scheduled bs) ≡ mem x (ids ss)
  pub ordered : IsOrdered [] bs
  pub given : IsGiven ss bs

-- Names done, and a subtask left, where every subtask left depends on one that is left.
pub record IsDeadlock (ss : List SubTask) : Type 0 where
  pub done : List String
  pub left : String
  pub left_known : mem left (ids ss) ≡ true
  pub left_open : mem left done ≡ false
  pub waits :
      (x : String)
      → mem x (ids ss) ≡ true
      → mem x done ≡ false
      → (y : String) × (mem y (deps_of ss x) ≡ true)
        × (mem y (ids ss) ≡ true)
        × (mem y done ≡ false)

mem-free :
    (m : Dict ℕ) (x : String)
    → Unique m
    → mem x (free m) ≡ is_some (lookup x m) && eqb (degree m x) 0
unfolding mem free lookup
mem-free [] x u = refl
mem-free ((k, n) ∷ m) x u = ground (arith, mem-free m x u.1, eq_iff k x, u.0)

IsDistinct-free : (m : Dict ℕ) → Unique m → IsDistinct (free m)
unfolding free
IsDistinct-free [] u = tt
IsDistinct-free ((k, n) ∷ m) u = elim (Bool-cases (eqb n 0)) [
  | inl z ↦ rw z (ground (arith, mem-free m k u.1, u.0), IsDistinct-free m u.1)
  | inr p ↦ rw p (IsDistinct-free m u.1)
]

open_names-nil : (ys : List String) → open_names [] ys ≡ length ys
unfolding mem
open_names-nil [] = refl
open_names-nil (y ∷ ys) = omega (arith, open_names-nil ys)

pub or_else-none : (o : Option SubTask) → or_else o none ≡ o
or_else-none none = refl
or_else-none (some s) = refl

pub length-ids : (ss : List SubTask) → length (ids ss) ≡ length ss
length-ids [] = refl
length-ids (s ∷ ss) = omega (arith, length-ids ss)

pub length-given : (ss : List SubTask) → length (map some ss) ≡ length ss
length-given [] = refl
length-given (s ∷ ss) = omega (arith, length-given ss)

module _ (sorted : List String → List String) (sorts : IsSorting sorted) where
  first-IsRound :
      (subs : List (Option SubTask)) (t u : Tables) (r : Registered empty_tables subs t)
      → Linked t r.tasks u
      → IsRound r.tasks [] (sorted (free u.in_degree)) u.in_degree
  unfolding lookup mem
  first-IsRound subs t u r l = record {
    degrees =
        λ x. l.degrees x ∙ omega (arith, r.degrees x refl, open_names-nil (deps_of r.tasks x));
    ready = λ x.
        sorts.same x (free u.in_degree)
        ∙ ground (
          arith,
          mem-free u.in_degree x unique,
          l.known x (λ y h. r.known y ∙ ground (arith, h)),
          r.known x,
        );
    settled = λ x h. ground (arith, h);
    done_once = tt;
    ready_once = sorts.distinct (free u.in_degree) (IsDistinct-free u.in_degree unique);
    within = λ x h. ground (arith, h);
  }
    where
      unique : Unique u.in_degree
      unique = l.unique (r.unique tt)

  -- The loop over prepared tables.
  pub run_prepared :
      (subs : List (Option SubTask)) (t u : Tables) (r : Registered empty_tables subs t)
      → Linked t r.tasks u
      → (bs : List (List SubTask)) × (processed : ℕ) × (run_batches sorted (length subs) (ok u)
          ≡ checked (length subs) (some (bs, processed)))
        × IsFinished r.tasks [] bs processed
  unfolding lookup
  run_prepared subs t u r l =
      let f =
        batches_from-IsFinished sorted sorts r.tasks r.distinct u.task_by_id u.dependents
          (λ x. ap (lookup x) l.tasks ∙ r.found x ∙ or_else-none (find_task r.tasks x))
          (λ x d. omega (
            arith,
            l.counts x d,
            ap (λ (m : Dict (List String)). count x (names_of (lookup d m))) r.dependents,
          ))
          (suc (length subs)) [] (sorted (free u.in_degree)) u.in_degree
          (first-IsRound subs t u r l)
          (omega (arith, length-ids r.tasks, length-given r.tasks, ap length r.given)) in
      (f.0, f.1, ap (checked (length subs)) f.2, f.3)
