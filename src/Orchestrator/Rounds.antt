-- ===== src/Orchestrator/Rounds.antt =====
-- The loop over `ready`: an invariant of its rounds, and what holds when it ends.
use mathlib.Core.List.{append-nil, append_assoc}
use heike.Prelude.{
  ℕ, zero, suc, ◌+◌, ◌<◌, String, ◌≡◌, refl, ap, sym, ◌∙◌, inl, inr, true, false, not, ◌&&◌, Option,
  some, List, [], ◌∷◌, ◌++◌, arith, eq_refl, eqb, Dict, lookup, length, length-append, mem,
  mem-append, IsDistinct, IsDistinct-append, Within, length-le_of_Within, Bool-cases, Option-cases,
  All,
}
use heike.Orchestrator.Batches.{SubTask, names_of, release_each, tasks_of, add_batch, batches_from}
use heike.Orchestrator.Counting.{
  count, count-append, open_names, open_names-append, hits, degree, degree-release_each,
  freed-release_each, IsDistinct-release_each, dependents_of, release_all-release_each,
}
use heike.Orchestrator.Linking.{
  ids, deps_of, find_task, is_some-find_task, find_task-deps_of, deps_of-nil,
}

-- The ids of the batches, in order.
abbrev pub scheduled : List (List SubTask) → List String
scheduled [] = []
scheduled (b ∷ bs) = ids b ++ scheduled bs

-- Every dependency of a task is among those done before its batch.
abbrev pub IsOrdered : List String → List (List SubTask) → Type 0
IsOrdered d [] = Unit
IsOrdered d (b ∷ bs) =
    All (λ (s : SubTask). All (λ (x : String). mem x d ≡ true) s.dependencies) b
    × IsOrdered (d ++ ids b) bs

-- Every task is the one that was given under its id.
abbrev pub IsGiven : List SubTask → List (List SubTask) → Type 0
IsGiven ss = All (All (λ (s : SubTask). find_task ss s.id ≡ some s))

-- What is documented of sort.Strings: it permutes.
pub record IsSorting (sorted : List String → List String) : Type 0 where
  pub same : (x : String) (l : List String) → mem x (sorted l) ≡ mem x l
  pub distinct : (l : List String) → IsDistinct l → IsDistinct (sorted l)

-- Between two rounds: the names done, the names ready and the degrees.
pub record IsRound (ss : List SubTask) (d r : List String) (m : Dict ℕ) : Type 0 where
  pub degrees : (x : String) → degree m x ≡ open_names d (deps_of ss x)
  pub ready : (x : String) → mem x r ≡ mem x (ids ss) && (eqb (degree m x) 0 && not (mem x d))
  pub settled : (x : String) → mem x d ≡ true → degree m x ≡ 0
  pub done_once : IsDistinct d
  pub ready_once : IsDistinct r
  pub within : Within d (ids ss)

-- What the loop leaves, begun with the names `d` done.
pub record IsFinished (ss : List SubTask) (d : List String) (bs : List (List SubTask))
    (processed : ℕ) : Type 0 where
  pub counted : processed ≡ length (scheduled bs)
  pub distinct : IsDistinct (d ++ scheduled bs)
  pub within : Within (d ++ scheduled bs) (ids ss)
  pub stuck :
      (x : String)
      → mem x (ids ss) ≡ true
      → mem x (d ++ scheduled bs) ≡ false
      → 0 < open_names (d ++ scheduled bs) (deps_of ss x)
  pub ordered : IsOrdered d bs
  pub given : IsGiven ss bs

module _ (sorted : List String → List String) (sorts : IsSorting sorted) (ss : List SubTask)
    (once : IsDistinct (ids ss)) (tasks : Dict SubTask) (dependents : Dict (List String))
    (found : (x : String) → lookup x tasks ≡ find_task ss x)
    (counts : (x d : String)
      → count x (names_of (lookup d dependents)) ≡ count d (deps_of ss x)) where
  count-dependents_of :
      (x : String) (r : List String) → count x (dependents_of dependents r) ≡ hits r (deps_of ss x)
  count-dependents_of x [] = refl
  count-dependents_of x (y ∷ ys) = omega (
    arith,
    count-append x (names_of (lookup y dependents)) (dependents_of dependents ys),
    counts x y,
    count-dependents_of x ys,
  )

  -- A name with dependencies is that of a task.
  known_of_degree :
      (d r : List String) (m : Dict ℕ) (x : String)
      → IsRound ss d r m
      → 0 < degree m x
      → mem x (ids ss) ≡ true
  known_of_degree d r m x i h = elim (Bool-cases (mem x (ids ss))) [
    | inl there ↦ there
    | inr absent ↦
        absurd (omega (arith, h, i.degrees x, ap (open_names d) (deps_of-nil ss x absent)))
  ]

  IsRound-release :
      (d r : List String) (m : Dict ℕ)
      → IsRound ss d r m
      → let next = release_each (m, []) (dependents_of dependents r) in
        IsRound ss (d ++ r) (sorted next.1) next.0
  unfolding mem
  IsRound-release d r m i = record {
    degrees = λ x.
        omega (arith, degree-release_each m [] l x, count-dependents_of x r, i.degrees x, opened x);
    ready = λ x.
        sorts.same x (release_each (m, []) l).1
        ∙ ground (
          arith,
          freed-release_each m [] l x,
          degree-release_each m [] l x,
          mem-append x d r,
          i.ready x,
          i.settled x,
          known_of_degree d r m x i,
        );
    settled = λ x h.
        degree-release_each m [] l x ∙ ground (arith, h, mem-append x d r, i.ready x, i.settled x);
    done_once = IsDistinct-append d r i.done_once i.ready_once (λ x h. apart x h);
    ready_once = sorts.distinct (release_each (m, []) l).1 (IsDistinct-release_each m [] l tt);
    within = λ x h. ground (arith, h, mem-append x d r, i.ready x, i.within x);
  }
    where
      l : List String
      l = dependents_of dependents r

      apart : (x : String) → mem x r ≡ true → mem x d ≡ false
      apart x h = ground (arith, i.ready x, h)

      opened :
          (x : String)
          → open_names d (deps_of ss x) ≡ open_names (d ++ r) (deps_of ss x) + hits r (deps_of ss x)
      opened x = open_names-append d r (deps_of ss x) i.ready_once apart

  found_task : (x : String) → mem x (ids ss) ≡ true → (s : SubTask) × (lookup x tasks ≡ some s)
  found_task x h = elim (Option-cases (lookup x tasks)) [
    | inl absent ↦ ground (arith, found x, is_some-find_task ss x, h, absent)
    | inr there ↦ there
  ]

  all_done : (d ys : List String) → open_names d ys ≡ 0 → All (λ (x : String). mem x d ≡ true) ys
  all_done d [] h = tt
  all_done d (y ∷ ys) h = (ground (arith, h), all_done d ys (ground (arith, h)))

  -- What a batch of ready names comes to.
  record IsBatch (d r : List String) (b : List SubTask) : Type 0 where
    names : ids b ≡ r
    given : All (λ (s : SubTask). find_task ss s.id ≡ some s) b
    ordered : All (λ (s : SubTask). All (λ (x : String). mem x d ≡ true) s.dependencies) b

  tasks_of-IsBatch :
      (d r : List String)
      → Within r (ids ss)
      → ((x : String) → mem x r ≡ true → open_names d (deps_of ss x) ≡ 0)
      → IsBatch d r (tasks_of tasks r)
  unfolding tasks_of mem
  tasks_of-IsBatch d [] w z = record { names = refl; given = tt; ordered = tt }
  tasks_of-IsBatch d (x ∷ r) w z =
      let own : mem x (x ∷ r) ≡ true = ground (arith, eq_refl x) in
      let t = found_task x (w x own) in
      let here : find_task ss x ≡ some t.0 = sym (found x) ∙ t.1 in
      let facts = find_task-deps_of ss x t.0 once here in
      let rest =
        tasks_of-IsBatch d r (λ y h. w y (ground (arith, h))) (λ y h. z y (ground (arith, h))) in
      rw (t.1, tasks_of)
        (record {
          names =
              ap (λ (y : String). y ∷ ids (tasks_of tasks r)) facts.0
              ∙ ap (λ (l : List String). x ∷ l) rest.names;
          given = (rw (ap (find_task ss) facts.0) here, rest.given);
          ordered = (
            all_done d t.0.dependencies (ap (open_names d) (sym facts.1) ∙ z x own),
            rest.ordered,
          );
        })

  IsFinished-nil : (d : List String) (m : Dict ℕ) → IsRound ss d [] m → IsFinished ss d [] 0
  unfolding mem
  IsFinished-nil d m i = record {
    counted = refl;
    distinct = rw append-nil i.done_once;
    within = rw append-nil i.within;
    stuck = λ x there undone.
        rw append-nil (ground (arith, i.ready x, i.degrees x, there, rw append-nil at undone));
    ordered = tt;
    given = tt;
  }

  IsFinished-cons :
      (d r : List String) (b : List SubTask) (bs : List (List SubTask)) (processed : ℕ)
      → IsBatch d r b
      → IsFinished ss (d ++ r) bs processed
      → IsFinished ss d (b ∷ bs) (length r + processed)
  IsFinished-cons d r b bs processed i f = record {
    counted = omega (arith, f.counted, length-append (ids b) (scheduled bs), ap length i.names);
    distinct = rw i.names (rw (← append_assoc) f.distinct);
    within = rw i.names (rw (← append_assoc) f.within);
    stuck = rw i.names (rw (← append_assoc) f.stuck);
    ordered = (i.ordered, rw i.names f.ordered);
    given = (i.given, f.given);
  }

  after_release : ℕ → List String → Dict ℕ × List String → Option (List (List SubTask) × ℕ)
  after_release fuel r next =
      add_batch (tasks_of tasks r) (length r)
        (batches_from sorted tasks dependents fuel next.0 (sorted next.1))

  -- A round needs one unit of fuel and does at least one task.
  pub batches_from-IsFinished :
      (fuel : ℕ) (d r : List String) (m : Dict ℕ)
      → IsRound ss d r m
      → length (ids ss) < fuel + length d
      → (bs : List (List SubTask)) × (processed : ℕ) × (batches_from sorted tasks dependents fuel m
            r
          ≡ some (bs, processed))
        × IsFinished ss d bs processed
  unfolding batches_from after_release
  batches_from-IsFinished fuel d [] m i h = ([], 0, refl, IsFinished-nil d m i)
  batches_from-IsFinished zero d (x ∷ xs) m i h =
      absurd (omega (arith, h, length-le_of_Within d (ids ss) i.done_once i.within))
  batches_from-IsFinished (suc fuel) d (x ∷ xs) m i h =
      let r : List String = x ∷ xs in
      let next = release_each (m, []) (dependents_of dependents r) in
      let rest =
        batches_from-IsFinished fuel (d ++ r) (sorted next.1) next.0 (IsRound-release d r m i)
          (omega (arith, h, length-append d r)) in
      let batch =
        tasks_of-IsBatch d r (λ y n. ground (arith, i.ready y, n))
          (λ y n. ground (arith, i.ready y, i.degrees y, n)) in
      (
        tasks_of tasks r ∷ rest.0,
        length r + rest.1,
        ap (after_release fuel r) (release_all-release_each dependents (m, []) r)
            ∙ ap (add_batch (tasks_of tasks r) (length r)) rest.2,
        IsFinished-cons d r (tasks_of tasks r) rest.0 rest.1 batch rest.3,
      )
