-- ===== src/Orchestrator/Decomposition.antt =====
-- Normalised subtasks, and their way through the coordinator.
use mathlib.Core.Path.{subst}
use heike.Prelude.{
  ℕ, suc, String, ◌≡◌, ◌≢◌, ◌⊎◌, refl, ap, sym, ◌∙◌, inl, inr, Bool, true, false, ◌||◌, some, List,
  [], ◌∷◌, map, arith, ◌==◌, eq_iff, eq_refl, mem, trim_space, IsDistinct, Bool-cases, All, differ,
}
use heike.Errors.{ok, err}
use heike.Orchestrator.Batches.{SubTask, circular, resolve_execution_batches}
use heike.Orchestrator.Linking.{ids}
use heike.Orchestrator.Rounds.{IsSorting}
use heike.Orchestrator.Schedule.{IsSchedule}
use heike.Orchestrator.Acceptance.{resolve_execution_batches-decides}
use heike.Orchestrator.Normalizing.{
  clean_dependencies, choose_id, normalize_task, normalize_from, normalize_sub_tasks,
}

-- Dependencies that are set, on other tasks, and each once.
pub record IsClean (t : SubTask) : Type 0 where
  pub named : t.id ≢ ""
  pub described : t.description ≢ ""
  pub proper : All (λ (d : String). (d ≢ "") × (d ≢ t.id)) t.dependencies
  pub once : IsDistinct t.dependencies

clean_dependencies-proper :
    (id : String) (seen ds : List String)
    → All (λ (d : String). (d ≢ "") × (d ≢ id)) (clean_dependencies id seen ds)
unfolding clean_dependencies
clean_dependencies-proper id seen [] = tt
clean_dependencies-proper id seen (d ∷ ds) =
    elim (Bool-cases (trim_space d == "" || trim_space d == id || mem (trim_space d) seen)) [
      | inl skip ↦ rw (skip, clean_dependencies) (clean_dependencies-proper id seen ds)
      | inr take ↦
          rw (take, clean_dependencies)
            (
              (
                differ (trim_space d) "" (ground (arith, take)),
                differ (trim_space d) id (ground (arith, take)),
              ),
              clean_dependencies-proper id (trim_space d ∷ seen) ds,
            )
    ]

-- Nothing that was seen is taken.
clean_dependencies-fresh :
    (id : String) (seen ds : List String) (x : String)
    → mem x seen ≡ true
    → mem x (clean_dependencies id seen ds) ≡ false
unfolding clean_dependencies mem
clean_dependencies-fresh id seen [] x h = refl
clean_dependencies-fresh id seen (d ∷ ds) x h =
    elim (Bool-cases (trim_space d == "" || trim_space d == id || mem (trim_space d) seen)) [
      | inl skip ↦ rw (skip, clean_dependencies) (clean_dependencies-fresh id seen ds x h)
      | inr take ↦
          let rest = clean_dependencies-fresh id (trim_space d ∷ seen) ds x (ground (arith, h)) in
          rw (take, clean_dependencies) (ground (arith, rest, h, take, eq_iff (trim_space d) x))
    ]

clean_dependencies-IsDistinct :
    (id : String) (seen ds : List String) → IsDistinct (clean_dependencies id seen ds)
unfolding clean_dependencies mem
clean_dependencies-IsDistinct id seen [] = tt
clean_dependencies-IsDistinct id seen (d ∷ ds) =
    elim (Bool-cases (trim_space d == "" || trim_space d == id || mem (trim_space d) seen)) [
      | inl skip ↦ rw (skip, clean_dependencies) (clean_dependencies-IsDistinct id seen ds)
      | inr take ↦
          rw (take, clean_dependencies)
            (
              clean_dependencies-fresh id (trim_space d ∷ seen) ds (trim_space d)
                  (ground (arith, eq_refl (trim_space d))),
              clean_dependencies-IsDistinct id (trim_space d ∷ seen) ds,
            )
    ]

choose_id-named :
    (fallback : String) (used : List String) (id : String)
    → fallback ≢ ""
    → choose_id fallback used id ≢ ""
choose_id-named fallback used id f = elim (Bool-cases (id == "" || id == "<nil>")) [
  | inl unset ↦ rw unset (elim (Bool-cases (mem fallback used)) [ inl p ↦ rw p f | inr p ↦ rw p f ])
  | inr set ↦ rw set (elim (Bool-cases (mem id used)) [
    | inl p ↦ rw p f
    | inr p ↦ rw p (differ id "" (ground (arith, set)))
  ])
]

-- The ids of the tasks that are kept.
abbrev pub kept_id : Bool → String → List String → List String
kept_id true id rest = rest
kept_id false id rest = id ∷ rest

abbrev pub given_ids : List SubTask → List String
given_ids [] = []
given_ids (t ∷ ts) = kept_id (trim_space t.description == "") (trim_space t.id) (given_ids ts)

module _ (task_id : ℕ → String) (named : (n : ℕ) → task_id n ≢ "") where
  pub normalize_from-IsClean :
      (n : ℕ) (used : List String) (ts : List SubTask)
      → All IsClean (normalize_from task_id n used ts)
  unfolding normalize_from
  normalize_from-IsClean n used [] = tt
  normalize_from-IsClean n used (t ∷ ts) = elim (Bool-cases (trim_space t.description == "")) [
    | inl blank ↦ rw (blank, normalize_from) (normalize_from-IsClean n used ts)
    | inr set ↦
        rw (set, normalize_from)
          (
            record {
              named = choose_id-named (task_id (suc n)) used (trim_space t.id) (named (suc n));
              described = differ (trim_space t.description) "" set;
              proper =
                  clean_dependencies-proper (choose_id (task_id (suc n)) used (trim_space t.id)) []
                    t.dependencies;
              once =
                  clean_dependencies-IsDistinct (choose_id (task_id (suc n)) used (trim_space t.id))
                    [] t.dependencies;
            },
            normalize_from-IsClean (suc n) ((normalize_task task_id n used t).id ∷ used) ts,
          )
  ]

-- An id that is set and was not used.
abbrev pub IsFresh : List String → String → Type 0
IsFresh used x = (x ≢ "") × (x ≢ "<nil>") × (mem x used ≡ false)

IsFresh-cons :
    (used : List String) (id : String) (xs : List String)
    → mem id xs ≡ false
    → All (IsFresh used) xs
    → All (IsFresh (id ∷ used)) xs
unfolding mem
IsFresh-cons used id [] h a = tt
IsFresh-cons used id (x ∷ xs) h a = (
  (a.0.0, a.0.1, ground (arith, a.0.2, h, eq_iff x id, eq_iff id x)),
  IsFresh-cons used id xs (ground (arith, h)) a.1,
)

choose_id-IsFresh :
    (fallback : String) (used : List String) (id : String)
    → IsFresh used id
    → choose_id fallback used id ≡ id
choose_id-IsFresh fallback used id f =
    ground (arith, f.0, f.1, f.2, eq_iff id "", eq_iff id "<nil>")

-- Ids that are set and different from each other, and from those used, are kept.
ids-normalize_from :
    (task_id : ℕ → String) (n : ℕ) (used : List String) (ts : List SubTask)
    → All (IsFresh used) (given_ids ts)
    → IsDistinct (given_ids ts)
    → ids (normalize_from task_id n used ts) ≡ given_ids ts
unfolding normalize_from
ids-normalize_from task_id n used [] a d = refl
ids-normalize_from task_id n used (t ∷ ts) a d =
    elim (Bool-cases (trim_space t.description == "")) [
      | inl blank ↦
          rw (blank, normalize_from)
            (ids-normalize_from task_id n used ts (rw blank at a) (rw blank at d))
      | inr set ↦
          let fresh : All (IsFresh used) (trim_space t.id ∷ given_ids ts) = rw set at a in
          let once : IsDistinct (trim_space t.id ∷ given_ids ts) = rw set at d in
          let id = choose_id-IsFresh (task_id (suc n)) used (trim_space t.id) fresh.0 in
          let rest =
            ids-normalize_from task_id (suc n) (trim_space t.id ∷ used) ts
              (IsFresh-cons used (trim_space t.id) (given_ids ts) once.0 fresh.1) once.1 in
          rw (set, normalize_from)
            (ap (λ (x : String). x ∷ ids (normalize_from task_id (suc n) (x ∷ used) ts)) id
              ∙ ap (λ (l : List String). trim_space t.id ∷ l) rest)
    ]

abbrev pub Known : List SubTask → Type 0
Known ts = All (λ (s : SubTask). All (λ (d : String). mem d (ids ts) ≡ true) s.dependencies) ts

known-proper :
    (names ds : List String) (id : String)
    → All (λ (d : String). mem d names ≡ true) ds
    → All (λ (d : String). (d ≢ "") × (d ≢ id)) ds
    → All (λ (d : String). (mem d names ≡ true) × (d ≢ id)) ds
known-proper names [] id k p = tt
known-proper names (d ∷ ds) id k p = ((k.0, p.0.1), known-proper names ds id k.1 p.1)

known-IsClean :
    (names : List String) (ts : List SubTask)
    → All IsClean ts
    → All (λ (s : SubTask). All (λ (d : String). mem d names ≡ true) s.dependencies) ts
    → All (λ (s : SubTask). s.id ≢ "") ts
      × All
          (λ (s : SubTask). All (λ (d : String). (mem d names ≡ true) × (d ≢ s.id)) s.dependencies)
          ts
known-IsClean names [] c k = (tt, tt)
known-IsClean names (t ∷ ts) c k =
    let rest = known-IsClean names ts c.1 k.1 in
    ((c.0.named, rest.0), (known-proper names t.dependencies t.id k.0 c.0.proper, rest.1))

-- Subtasks that a model gave, with ids that are set and different: after they are normalised, if what
-- is left of their dependencies is on subtasks among them, the coordinator has a schedule of them,
-- or reports a circular dependency and there is none.
pub normalize_sub_tasks-decides :
    (task_id : ℕ → String) (sorted : List String → List String) (ts : List SubTask)
    → ((n : ℕ) → task_id n ≢ "")
    → IsSorting sorted
    → All (IsFresh []) (given_ids ts)
    → IsDistinct (given_ids ts)
    → Known (normalize_sub_tasks task_id ts)
    → ((bs : List (List SubTask)) × (resolve_execution_batches sorted
            (map some (normalize_sub_tasks task_id ts))
          ≡ some (ok bs))
        × IsSchedule (normalize_sub_tasks task_id ts) bs)
      ⊎ ((resolve_execution_batches sorted (map some (normalize_sub_tasks task_id ts))
            ≡ some (err circular))
          × ((bs : List (List SubTask)) → ¬ IsSchedule (normalize_sub_tasks task_id ts) bs))
unfolding normalize_sub_tasks
normalize_sub_tasks-decides task_id sorted ts named sorts fresh once known =
    let out = normalize_from task_id 0 [] ts in
    let clean = known-IsClean (ids out) out (normalize_from-IsClean task_id named 0 [] ts) known in
    resolve_execution_batches-decides sorted out sorts (record {
      distinct = subst IsDistinct (sym (ids-normalize_from task_id 0 [] ts fresh once)) once;
      named = clean.0;
      known = clean.1;
    })
