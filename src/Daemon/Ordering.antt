-- ===== src/Daemon/Ordering.antt =====
-- The order that `resolveInitOrder` finds, and the circle that keeps it from finding one.
use mathlib.Core.Path.{subst}
use mathlib.Core.List.{append-nil, append_assoc}
use heike.Prelude.{
  String, ◌≡◌, ◌⊎◌, sym, inl, inr, true, false, ◌||◌, Option, none, some, List, [], ◌∷◌, ◌++◌,
  arith, ◌==◌, eq_iff, eq_refl, if◌then◌else◌, mem, IsDistinct, Within, Bool-cases,
}
use heike.Errors.{Result, ok, err}
use heike.Daemon.Order.{Component, names, get_component_by_name, Visits, circular}

abbrev pub dependencies_in : Option Component → List String
dependencies_in none = []
dependencies_in (some c) = c.dependencies

abbrev pub dependencies_of : List Component → String → List String
dependencies_of cs x = dependencies_in (get_component_by_name cs x)

-- Each name after its dependencies, those before the list being `seen`.
abbrev pub IsAfter : List Component → List String → List String → Type 0
IsAfter cs seen [] = Unit
IsAfter cs seen (x ∷ xs) = Within (dependencies_of cs x) seen × IsAfter cs (seen ++ x ∷ []) xs

pub record IsInitOrder (cs : List Component) (order : List String) : Type 0 where
  pub distinct : IsDistinct order
  pub complete : (x : String) → mem x order ≡ mem x (names cs)
  pub ordered : IsAfter cs [] order

-- Names that are all components', each with a dependency among them.
pub record IsCircular (cs : List Component) : Type 0 where
  pub circle : List String
  pub member : String
  pub member_in : mem member circle ≡ true
  pub known : Within circle (names cs)
  pub waits :
      (x : String)
      → mem x circle ≡ true
      → (y : String) × (mem y (dependencies_of cs x) ≡ true) × (mem y circle ≡ true)

-- The state between two visits under the names of `path`.
pub record IsVisiting (cs : List Component) (path : List String) (s : Visits) : Type 0 where
  pub temp : s.temp_visited ≡ path
  pub same : s.visited ≡ s.order
  pub distinct : IsDistinct s.order
  pub within : Within s.order (names cs)
  pub ordered : IsAfter cs [] s.order
  pub apart : (x : String) → mem x path ≡ true → mem x s.order ≡ false

-- A name to visit under `path`: a component's, and one that the last name depends on.
abbrev pub IsNeeded : List Component → List String → String → Type 0
IsNeeded cs [] x = Unit
IsNeeded cs (p ∷ path) x = mem x (dependencies_of cs p) ≡ true

abbrev pub IsNext : List Component → List String → String → Type 0
IsNext cs path x = (mem x (names cs) ≡ true) × IsNeeded cs path x

abbrev pub IsPath : List Component → List String → Type 0
IsPath cs [] = Unit
IsPath cs (p ∷ path) = (mem p path ≡ false) × IsNext cs path p × IsPath cs path

-- What a visit gives: the goals are in the order, or there is a circle.
abbrev pub IsReached :
    List Component → List String → Visits → List String → Option (Result Visits) → Type 0
IsReached cs path s goals out =
    ((s' : Visits) × (out ≡ some (ok s'))
      × IsVisiting cs path s'
      × Within s.order s'.order
      × Within goals s'.order)
    ⊎ ((name : String) × (out ≡ some (err (circular name))) × IsCircular cs)

abbrev pub Reaches :
    List Component → List String → (Visits → String → Option (Result Visits)) → Type 0
Reaches cs path go =
    (s : Visits) (x : String)
    → IsVisiting cs path s
    → IsNext cs path x
    → IsReached cs path s (x ∷ []) (go s x)

pub IsAfter-snoc :
    (cs : List Component) (seen xs : List String) (x : String)
    → IsAfter cs seen xs
    → Within (dependencies_of cs x) (seen ++ xs)
    → IsAfter cs seen (xs ++ x ∷ [])
IsAfter-snoc cs seen [] x a w = (subst (Within (dependencies_of cs x)) (append-nil seen) w, tt)
IsAfter-snoc cs seen (y ∷ xs) x a w = (
  a.0,
  IsAfter-snoc cs (seen ++ y ∷ []) xs x a.1
      (subst (Within (dependencies_of cs x)) (sym (append_assoc seen (y ∷ []) xs)) w),
)

-- The path down to a name that is on it.
abbrev until : String → List String → List String
until x [] = []
until x (p ∷ path) = if p == x then p ∷ [] else p ∷ until x path

mem-until : (x : String) (path : List String) → mem x path ≡ true → mem x (until x path) ≡ true
unfolding mem
mem-until x [] h = h
mem-until x (p ∷ path) h = ground (arith, h, mem-until x path, eq_iff p x)

pub until-Within : (x : String) (path : List String) → Within (until x path) path
unfolding mem
until-Within x [] = λ y h. h
until-Within x (p ∷ path) = λ y h. ground (arith, h, until-Within x path y)

pub IsPath-Within :
    (cs : List Component) (path : List String) → IsPath cs path → Within path (names cs)
unfolding mem
IsPath-Within cs [] p = λ x h. ground (arith, h)
IsPath-Within cs (q ∷ path) p =
    λ x h. ground (arith, h, IsPath-Within cs path p.2 x, p.1.0, eq_iff q x)

pub IsPath-IsDistinct :
    (cs : List Component) (path : List String) → IsPath cs path → IsDistinct path
IsPath-IsDistinct cs [] p = tt
IsPath-IsDistinct cs (q ∷ path) p = (p.0, IsPath-IsDistinct cs path p.2)

until-waits :
    (cs : List Component) (y x : String) (path : List String)
    → IsPath cs path
    → IsNeeded cs path y
    → mem x path ≡ true
    → (z : String) → mem z (until x path) ≡ true
    → (d : String) × (mem d (dependencies_of cs z) ≡ true)
      × (((y == d) || mem d (until x path)) ≡ true)
unfolding mem
until-waits cs y x [] p n h z m = ground (arith, h)
until-waits cs y x (q ∷ path) p n h z m = elim (Bool-cases (q == z)) [
  | inl same ↦ (
    y,
    subst (λ (w : String). mem y (dependencies_of cs w) ≡ true) ((eq_iff q z).0 same) n,
    ground (arith, eq_refl y),
  )
  | inr other ↦ elim (Bool-cases (q == x)) [
    | inl here ↦ ground (arith, m, here, other)
    | inr below ↦
        let r =
          until-waits cs q x path p.2 p.1.1 (ground (arith, h, below)) z
            (ground (arith, m, below, other)) in
        (r.0, r.1, ground (arith, below, r.2))
  ]
]

pub IsCircular-of_path :
    (cs : List Component) (x : String) (path : List String)
    → IsPath cs path
    → IsNeeded cs path x
    → mem x path ≡ true
    → IsCircular cs
IsCircular-of_path cs x path p n h =
    let inside = mem-until x path h in
    record {
      circle = until x path;
      member = x;
      member_in = inside;
      known = λ y m. IsPath-Within cs path p y (until-Within x path y m);
      waits = λ z m.
          let r = until-waits cs x x path p n h z m in
          (r.0, r.1, ground (arith, r.2, eq_iff x r.0, inside));
    }
