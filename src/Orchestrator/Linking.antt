-- ===== src/Orchestrator/Linking.antt =====
-- What the two loops over the subtasks leave in the tables.
use mathlib.Core.Path.{subst}
use mathlib.Core.List.{append-nil}
use heike.Prelude.{
  ◌+◌, String, ◌≡◌, refl, ap, ◌∙◌, true, false, ◌||◌, Option, none, some, List, [], ◌∷◌, ◌++◌, map,
  arith, ◌==◌, eq_iff, eq_refl, if◌then◌else◌, Dict, lookup, lookup-insert, Unique, Unique-insert,
  length, mem, IsDistinct, Bool-cases, inl, inr, All, All-append, length-append, if_holds,
}
use heike.Errors.{Result, ok, err}
use heike.Orchestrator.Batches.{
  SubTask, Tables, is_some, names_of, add_task, register_tasks, add_edge, add_edges, and_then,
  link_tasks,
}
use heike.Orchestrator.Counting.{count, count-append, degree}

abbrev pub ids : List SubTask → List String
ids [] = []
ids (s ∷ ss) = s.id ∷ ids ss

-- The dependencies of the task of that id.
abbrev pub deps_of : List SubTask → String → List String
deps_of [] x = []
deps_of (s ∷ ss) x = if s.id == x then s.dependencies ++ deps_of ss x else deps_of ss x

abbrev pub find_task : List SubTask → String → Option SubTask
find_task [] x = none
find_task (s ∷ ss) x = if s.id == x then some s else find_task ss x

abbrev pub or_else : Option SubTask → Option SubTask → Option SubTask
or_else none d = d
or_else (some s) d = some s

-- What the first loop makes of the tables `t`.
pub record Registered (t : Tables) (subs : List (Option SubTask)) (t' : Tables) : Type 0 where
  pub tasks : List SubTask
  pub given : subs ≡ map some tasks
  pub distinct : IsDistinct (ids tasks)
  pub fresh : (x : String) → mem x (ids tasks) ≡ true → lookup x t.task_by_id ≡ none
  pub found :
      (x : String) → lookup x t'.task_by_id ≡ or_else (find_task tasks x) (lookup x t.task_by_id)
  pub degrees : (x : String) → degree t.in_degree x ≡ 0 → degree t'.in_degree x ≡ 0
  pub known :
      (x : String)
      → is_some (lookup x t'.in_degree) ≡ mem x (ids tasks) || is_some (lookup x t.in_degree)
  pub unique : Unique t.in_degree → Unique t'.in_degree
  pub dependents : t'.dependents ≡ t.dependents

Registered-nil : (t : Tables) → Registered t [] t
unfolding mem
Registered-nil t = record {
  tasks = [];
  given = refl;
  distinct = tt;
  fresh = λ x m. ground (arith, m);
  found = λ x. refl;
  degrees = λ x z. z;
  known = λ x. refl;
  unique = λ u. u;
  dependents = refl;
}

-- A name is that of a task found.
pub is_some-find_task : (ss : List SubTask) (x : String) → is_some (find_task ss x) ≡ mem x (ids ss)
unfolding mem
is_some-find_task [] x = refl
is_some-find_task (s ∷ ss) x = ground (arith, is_some-find_task ss x)

Registered-cons :
    (t : Tables) (s : SubTask) (rest : List (Option SubTask)) (t' : Tables)
    → lookup s.id t.task_by_id ≡ none
    → Registered (add_task t s) rest t'
    → Registered t (some s ∷ rest) t'
unfolding mem
Registered-cons t s rest t' new r = record {
  tasks = s ∷ r.tasks;
  given = ap (λ (l : List (Option SubTask)). some s ∷ l) r.given;
  distinct = (
    ground (arith, r.fresh s.id, lookup-insert s.id s.id s t.task_by_id, eq_refl s.id),
    r.distinct,
  );
  fresh =
      λ x m. ground (arith, m, r.fresh x, new, lookup-insert s.id x s t.task_by_id, eq_iff s.id x);
  found = λ x.
      r.found x
      ∙ ground (
        arith,
        r.fresh x,
        is_some-find_task r.tasks x,
        lookup-insert s.id x s t.task_by_id,
        eq_iff s.id x,
      );
  degrees = λ x z. r.degrees x (ground (arith, lookup-insert s.id x 0 t.in_degree, z));
  known = λ x. r.known x ∙ ground (arith, lookup-insert s.id x 0 t.in_degree);
  unique = λ u. r.unique (Unique-insert s.id 0 t.in_degree u);
  dependents = r.dependents;
}

pub register_tasks-Registered :
    (t : Tables) (subs : List (Option SubTask)) (t' : Tables)
    → register_tasks t subs ≡ ok t'
    → Registered t subs t'
unfolding register_tasks
register_tasks-Registered t [] t' h =
    let same : t ≡ t' = ground (arith, h) in
    subst (λ (u : Tables). Registered t [] u) same (Registered-nil t)
register_tasks-Registered t (none ∷ rest) t' h = ground (arith, h)
register_tasks-Registered t (some s ∷ rest) t' h =
    Registered-cons t s rest t' (ground (arith, h))
      (register_tasks-Registered (add_task t s) rest t' (ground (arith, h)))

abbrev pub names : Tables → String → List String
names t d = names_of (lookup d t.dependents)

-- What the dependencies of one task make of the tables `t`.
record Edged (t : Tables) (id : String) (deps : List String) (t' : Tables) : Type 0 where
  tasks : t'.task_by_id ≡ t.task_by_id
  degrees :
      (x : String)
      → degree t'.in_degree x ≡ degree t.in_degree x + (if id == x then length deps else 0)
  counts :
      (x d : String)
      → count x (names t' d) ≡ count x (names t d) + (if id == x then count d deps else 0)
  known :
      (x : String)
      → is_some (lookup id t.in_degree) ≡ true
      → is_some (lookup x t'.in_degree) ≡ is_some (lookup x t.in_degree)
  unique : Unique t.in_degree → Unique t'.in_degree
  edges : All (λ (d : String). is_some (lookup d t.task_by_id) ≡ true) deps

Edged-nil : (t : Tables) (id : String) → Edged t id [] t
Edged-nil t id = record {
  tasks = refl;
  degrees = λ x. ground arith;
  counts = λ x d. ground arith;
  known = λ x k. refl;
  unique = λ u. u;
  edges = tt;
}

Edged-cons :
    (t : Tables) (id dep : String) (deps : List String) (t' : Tables)
    → is_some (lookup dep t.task_by_id) ≡ true
    → Edged (add_edge t id dep) id deps t'
    → Edged t id (dep ∷ deps) t'
Edged-cons t id dep deps t' there r = record {
  tasks = r.tasks;
  degrees = λ x.
      ground (
        arith,
        r.degrees x,
        lookup-insert id x (degree t.in_degree id + 1) t.in_degree,
        eq_iff id x,
      );
  counts = λ x d. ground (
    arith,
    r.counts x d,
    lookup-insert dep d (names t dep ++ id ∷ []) t.dependents,
    count-append x (names t dep) (id ∷ []),
    eq_iff dep d,
  );
  known = λ x k. ground (
    arith,
    r.known x,
    k,
    lookup-insert id id (degree t.in_degree id + 1) t.in_degree,
    eq_refl id,
    lookup-insert id x (degree t.in_degree id + 1) t.in_degree,
    eq_iff id x,
  );
  unique = λ u. r.unique (Unique-insert id (degree t.in_degree id + 1) t.in_degree u);
  edges = (there, r.edges);
}

add_edges-Edged :
    (t : Tables) (id : String) (deps : List String) (t' : Tables)
    → add_edges t id deps ≡ ok t'
    → Edged t id deps t'
unfolding add_edges
add_edges-Edged t id [] t' h =
    let same : t ≡ t' = ground (arith, h) in subst (Edged t id []) same (Edged-nil t id)
add_edges-Edged t id (dep ∷ deps) t' h =
    Edged-cons t id dep deps t' (ground (arith, h))
      (add_edges-Edged (add_edge t id dep) id deps t' (ground (arith, h)))

-- What the second loop makes of the tables `t`.
pub record Linked (t : Tables) (ss : List SubTask) (t' : Tables) : Type 0 where
  pub tasks : t'.task_by_id ≡ t.task_by_id
  pub degrees : (x : String) → degree t'.in_degree x ≡ degree t.in_degree x + length (deps_of ss x)
  pub counts : (x d : String) → count x (names t' d) ≡ count x (names t d) + count d (deps_of ss x)
  pub known :
      (x : String)
      → ((y : String) → mem y (ids ss) ≡ true → is_some (lookup y t.in_degree) ≡ true)
      → is_some (lookup x t'.in_degree) ≡ is_some (lookup x t.in_degree)
  pub unique : Unique t.in_degree → Unique t'.in_degree
  pub edges :
      (x : String) → All (λ (d : String). is_some (lookup d t.task_by_id) ≡ true) (deps_of ss x)

Linked-nil : (t : Tables) → Linked t [] t
Linked-nil t = record {
  tasks = refl;
  degrees = λ x. omega arith;
  counts = λ x d. omega arith;
  known = λ x k. refl;
  unique = λ u. u;
  edges = λ x. tt;
}

Linked-cons :
    (t u : Tables) (s : SubTask) (ss : List SubTask) (t' : Tables)
    → Edged t s.id s.dependencies u
    → Linked u ss t'
    → Linked t (s ∷ ss) t'
unfolding mem
Linked-cons t u s ss t' e r = record {
  tasks = r.tasks ∙ e.tasks;
  degrees =
      λ x. ground (arith, r.degrees x, e.degrees x, length-append s.dependencies (deps_of ss x));
  counts = λ x d.
      ground (arith, r.counts x d, e.counts x d, count-append d s.dependencies (deps_of ss x));
  known = λ x k.
      let own : is_some (lookup s.id t.in_degree) ≡ true = k s.id (ground (arith, eq_refl s.id)) in
      r.known x (λ y m. e.known y own ∙ k y (ground (arith, m))) ∙ e.known x own;
  unique = λ q. r.unique (e.unique q);
  edges = λ x.
      let rest =
        subst
          (λ (m : Dict SubTask). All (λ (d : String). is_some (lookup d m) ≡ true) (deps_of ss x))
          e.tasks (r.edges x) in
      if_holds (All (λ (d : String). is_some (lookup d t.task_by_id) ≡ true)) (s.id == x)
        (λ same. All-append _ s.dependencies (deps_of ss x) e.edges rest) (λ other. rest);
}

pub and_then-eq-ok :
    {A B : Type 0} (r : Result A) (k : A → Result B) (b : B)
    → and_then r k ≡ ok b
    → (a : A) × (r ≡ ok a) × (k a ≡ ok b)
and_then-eq-ok (ok a) k b h = (a, refl, h)
and_then-eq-ok (err e) k b h = ground (arith, h)

pub link_tasks-Linked :
    (t : Tables) (ss : List SubTask) (t' : Tables)
    → link_tasks t (map some ss) ≡ ok t'
    → Linked t ss t'
unfolding link_tasks
link_tasks-Linked t [] t' h =
    let same : t ≡ t' = ground (arith, h) in subst (Linked t []) same (Linked-nil t)
link_tasks-Linked t (s ∷ ss) t' h =
    let mid =
      and_then-eq-ok (add_edges t s.id s.dependencies) (λ u. link_tasks u (map some ss)) t' h in
    Linked-cons t mid.0 s ss t' (add_edges-Edged t s.id s.dependencies mid.0 mid.1)
      (link_tasks-Linked mid.0 ss t' mid.2)

pub deps_of-nil : (ss : List SubTask) (x : String) → mem x (ids ss) ≡ false → deps_of ss x ≡ []
unfolding mem
deps_of-nil [] x h = refl
deps_of-nil (s ∷ ss) x h = ground (arith, deps_of-nil ss x, h)

-- A task found has the id and, where no id stands twice, the dependencies of that id.
pub find_task-deps_of :
    (ss : List SubTask) (x : String) (s : SubTask)
    → IsDistinct (ids ss)
    → find_task ss x ≡ some s
    → (s.id ≡ x) × (deps_of ss x ≡ s.dependencies)
unfolding mem
find_task-deps_of [] x s u h = ground (arith, h)
find_task-deps_of (r ∷ rs) x s u h = elim (Bool-cases (r.id == x)) [
  | inl same ↦
      let e : r ≡ s = ground (arith, h) in
      rw same (
        subst (λ (q : SubTask). (q.id ≡ x) × (r.dependencies ++ deps_of rs x ≡ q.dependencies)) e
          (
            (eq_iff r.id x).0 same,
            rw (deps_of-nil rs x (ground (arith, u.0, eq_iff r.id x))) (append-nil r.dependencies),
          ))
  | inr other ↦ rw other (find_task-deps_of rs x s u.1 (ground (arith, h)))
]
