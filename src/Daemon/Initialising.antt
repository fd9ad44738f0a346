-- ===== src/Daemon/Initialising.antt =====
-- Which components the daemon initialises, and that names find the components.
use mathlib.Core.Path.{subst}
use mathlib.Core.List.{append-nil}
use heike.Prelude.{
  String, ◌≡◌, refl, ap, sym, ◌∙◌, inl, inr, true, false, Option, none, some, List, [], ◌∷◌, ◌++◌,
  map, arith, ◌==◌, eq_iff, eq_refl, mem, mem-append, IsDistinct, Within, Bool-cases, Option-cases,
}
use heike.Errors.{Err, wrapped}
use heike.Daemon.Order.{
  Component, names, get_component_by_name, validate_dependencies, resolve_init_order,
}
use heike.Daemon.Ordering.{IsAfter, IsInitOrder}
use heike.Daemon.Resolution.{resolve_init_order-decides}
use heike.Daemon.Lifecycle.{
  init, Daemon, Env, init_each, with_order, with_valid, initialize_components,
}
use heike.Daemon.Calls.{after_calls, after_calls-nil, Finds, init_each-IsPrefix, reversed}

pub names-append : (xs ys : List Component) → names (xs ++ ys) ≡ names xs ++ names ys
names-append [] ys = refl
names-append (x ∷ xs) ys = ap (λ (l : List String). x.name ∷ l) (names-append xs ys)

IsAfter-prefix :
    (cs : List Component) (seen xs ys : List String)
    → IsAfter cs seen (xs ++ ys)
    → IsAfter cs seen xs
IsAfter-prefix cs seen [] ys a = tt
IsAfter-prefix cs seen (x ∷ xs) ys a = (a.0, IsAfter-prefix cs (seen ++ x ∷ []) xs ys a.1)

IsDistinct-prefix : (xs ys : List String) → IsDistinct (xs ++ ys) → IsDistinct xs
IsDistinct-prefix [] ys d = tt
IsDistinct-prefix (x ∷ xs) ys d =
    (ground (arith, d.0, mem-append x xs ys), IsDistinct-prefix xs ys d.1)

Finds-cons :
    (c : Component) (cs xs : List Component)
    → mem c.name (names xs) ≡ false
    → Finds cs xs
    → Finds (c ∷ cs) xs
unfolding mem
Finds-cons c cs [] h f = tt
Finds-cons c cs (x ∷ xs) h f = (
  ground (arith, f.0, h, eq_iff c.name x.name, eq_refl x.name),
  Finds-cons c cs xs (ground (arith, h)) f.1,
)

Finds-all : (cs : List Component) → IsDistinct (names cs) → Finds cs cs
Finds-all [] d = tt
Finds-all (c ∷ cs) d = (ground (arith, eq_refl c.name), Finds-cons c cs cs d.0 (Finds-all cs d.1))

Finds-append : (cs xs ys : List Component) → Finds cs xs → Finds cs ys → Finds cs (xs ++ ys)
Finds-append cs [] ys f g = g
Finds-append cs (x ∷ xs) ys f g = (f.0, Finds-append cs xs ys f.1 g)

Finds-reversed : (cs xs : List Component) → Finds cs xs → Finds cs (reversed xs)
Finds-reversed cs [] f = tt
Finds-reversed cs (x ∷ xs) f =
    Finds-append cs (reversed xs) (x ∷ []) (Finds-reversed cs xs f.1) (f.0, tt)

-- With different names, the names in reverse find the components in reverse.
pub reversed-Finds : (cs : List Component) → IsDistinct (names cs) → Finds cs (reversed cs)
reversed-Finds cs d = Finds-reversed cs cs (Finds-all cs d)

find_named :
    (cs : List Component) (x : String)
    → mem x (names cs) ≡ true
    → (c : Component) × (get_component_by_name cs x ≡ some c) × (c.name ≡ x)
unfolding mem
find_named [] x h = ground (arith, h)
find_named (c ∷ cs) x h = elim (Bool-cases (c.name == x)) [
  | inl here ↦ (c, ground (arith, here), (eq_iff c.name x).0 here)
  | inr later ↦
      let r = find_named cs x (ground (arith, h, later)) in (r.0, ground (arith, later, r.1), r.2)
]

-- The components of a list of names.
components_named :
    (cs : List Component) (xs : List String)
    → Within xs (names cs)
    → (ys : List Component) × (names ys ≡ xs) × Finds cs ys
unfolding mem
components_named cs [] w = ([], refl, tt)
components_named cs (x ∷ xs) w =
    let c = find_named cs x (w x (ground (arith, eq_refl x))) in
    let rest = components_named cs xs (λ y h. w y (ground (arith, h))) in
    (
      c.0 ∷ rest.0,
      ap (λ (n : String). n ∷ names rest.0) c.2 ∙ ap (λ (l : List String). x ∷ l) rest.1,
      (ap (get_component_by_name cs) c.2 ∙ c.1, rest.2),
    )

-- The components that are initialised: each once and after its dependencies, and all of them when
-- there is no error.
pub record IsInitialised (cs : List Component) (d : Daemon) (out : Daemon × Option Err)
    : Type 0 where
  pub done : List Component
  pub calls : out.0 ≡ after_calls d (map init done)
  pub once : IsDistinct (names done)
  pub ordered : IsAfter cs [] (names done)
  pub complete : out.1 ≡ none → (x : String) → mem x (names done) ≡ mem x (names cs)

not-IsInitialised : (cs : List Component) (d : Daemon) (e : Err) → IsInitialised cs d (d, some e)
not-IsInitialised cs d e = record {
  done = [];
  calls = sym (after_calls-nil d);
  once = tt;
  ordered = tt;
  complete = λ h. ground (arith, h);
}

all_done : (xs done rest : List Component) → xs ≡ done ++ rest → rest ≡ [] → done ≡ xs
all_done xs done rest h e =
    sym (append-nil done) ∙ ap (λ (l : List Component). done ++ l) (sym e) ∙ sym h

init_each-IsInitialised :
    (env : Env) (d : Daemon) (cs : List Component) (order : List String)
    → d.components ≡ cs
    → IsInitOrder cs order
    → IsInitialised cs d (init_each env d order)
init_each-IsInitialised env d cs order h i =
    let ys = components_named cs order (λ x m. ground (arith, m, i.complete x)) in
    let p = init_each-IsPrefix env d cs ys.0 h ys.2 in
    let parts = sym ys.1 ∙ ap names p.parts ∙ names-append p.done p.rest in
    subst (λ (l : List String). IsInitialised cs d (init_each env d l)) ys.1
      (record {
        done = p.done;
        calls = p.calls;
        once = IsDistinct-prefix (names p.done) (names p.rest) (subst IsDistinct parts i.distinct);
        ordered =
            IsAfter-prefix cs [] (names p.done) (names p.rest)
              (subst (IsAfter cs []) parts i.ordered);
        complete = λ e x.
            ap (mem x) (ap names (all_done ys.0 p.done p.rest p.parts (p.complete e)) ∙ ys.1)
            ∙ i.complete x;
      })

pub initialize_components-IsInitialised :
    (env : Env) (d : Daemon) (cs : List Component)
    → d.components ≡ cs
    → (out : Daemon × Option Err) × (initialize_components env d ≡ some out)
      × IsInitialised cs d out
unfolding initialize_components
initialize_components-IsInitialised env d cs h = elim (Option-cases (validate_dependencies cs)) [
  | inr (e, refused) ↦ (
    (d, some (wrapped "dependency validation failed: %w" [] e)),
    ap (λ (l : List Component). with_valid env d (validate_dependencies l)) h
        ∙ ap (with_valid env d) refused,
    not-IsInitialised cs d _,
  )
  | inl valid ↦
      let go =
        ap (λ (l : List Component). with_valid env d (validate_dependencies l)) h
        ∙ ap (with_valid env d) valid
        ∙ ap (λ (l : List Component). with_order env d (resolve_init_order l)) h in
      elim (resolve_init_order-decides cs valid) [
        | inl (order, e, i) ↦ (
          init_each env d order,
          go ∙ ap (with_order env d) e,
          init_each-IsInitialised env d cs order h i,
        )
        | inr (name, e, n) ↦ (
          (d, some (wrapped "failed to resolve init order: %w" [] _)),
          go ∙ ap (with_order env d) e,
          not-IsInitialised cs d _,
        )
      ]
]
