-- ===== src/Daemon/Resolution.antt =====
-- Whether `resolveInitOrder` finds an order.
use heike.Prelude.{
  suc, String, ◌≡◌, ◌⊎◌, refl, ap, inl, inr, true, false, none, some, List, [], ◌∷◌, ◌++◌, arith,
  ◌==◌, eq_iff, length, mem, mem-append, Within, Bool-cases, Option-cases,
}
use heike.Errors.{ok, err}
use heike.Daemon.Order.{
  Component, names, unregistered, validate_each, validate_dependencies, circular, visit, unvisited,
  order_of, resolve_init_order,
}
use heike.Daemon.Ordering.{dependencies_of, IsAfter, IsInitOrder, IsCircular}
use heike.Daemon.Visiting.{IsReached-visit_each, Reaches-visit}

length-names : (cs : List Component) → length (names cs) ≡ length cs
length-names [] = refl
length-names (c ∷ cs) = omega (arith, length-names cs)

unregistered-none :
    (registered : List String) (name : String) (ds : List String)
    → unregistered registered name ds ≡ none
    → Within ds registered
unfolding unregistered mem
unregistered-none registered name [] h = λ x m. ground (arith, m)
unregistered-none registered name (d ∷ ds) h = elim (Bool-cases (mem d registered)) [
  | inl there ↦
      let rest = unregistered-none registered name ds (ground (arith, h, there)) in
      λ x m. ground (arith, there, m, rest x, eq_iff d x)
  | inr absent ↦ ground (arith, h, absent)
]

validate_each-none :
    (registered : List String) (cs : List Component)
    → validate_each registered cs ≡ none
    → (x : String) → Within (dependencies_of cs x) registered
unfolding validate_each mem
validate_each-none registered [] h x = λ y m. ground (arith, m)
validate_each-none registered (c ∷ cs) h x =
    elim (Option-cases (unregistered registered c.name c.dependencies)) [
      | inr (e, refused) ↦ ground (arith, h, refused)
      | inl fine ↦ elim (Bool-cases (c.name == x)) [
        | inl here ↦ rw here (unregistered-none registered c.name c.dependencies fine)
        | inr later ↦ rw later (validate_each-none registered cs (ground (arith, h, fine)) x)
      ]
    ]

-- No order holds a name of a circle.
IsAfter-apart :
    (cs : List Component) (k : IsCircular cs) (seen xs : List String)
    → ((x : String) → mem x k.circle ≡ true → mem x seen ≡ false)
    → IsAfter cs seen xs
    → (x : String) → mem x k.circle ≡ true
    → mem x xs ≡ false
unfolding mem
IsAfter-apart cs k seen [] n a x h = refl
IsAfter-apart cs k seen (y ∷ xs) n a x h = elim (Bool-cases (mem y k.circle)) [
  | inl inside ↦ let d = k.waits y inside in ground (arith, a.0 d.0 d.1, n d.0 d.2)
  | inr outside ↦
      let rest =
        IsAfter-apart cs k (seen ++ y ∷ []) xs
          (λ z m. ground (arith, mem-append z seen (y ∷ []), n z m, eq_iff y z, m, outside)) a.1 x
          h in
      ground (arith, rest, eq_iff y x, h, outside)
]

no_order : (cs : List Component) → IsCircular cs → (o : List String) → ¬ IsInitOrder cs o
unfolding mem
no_order cs k o i = ground (
  arith,
  i.complete k.member,
  k.known k.member k.member_in,
  IsAfter-apart cs k [] o (λ x h. refl) i.ordered k.member k.member_in,
)

-- When every dependency is registered, the order that is returned holds each component once, after
-- all that it depends on, or the error names a circular dependency and no such order exists.
pub resolve_init_order-decides :
    (cs : List Component)
    → validate_dependencies cs ≡ none
    → ((order : List String) × (resolve_init_order cs ≡ some (ok order)) × IsInitOrder cs order)
      ⊎ ((name : String) × (resolve_init_order cs ≡ some (err (circular name)))
          × ((order : List String) → ¬ IsInitOrder cs order))
unfolding resolve_init_order validate_dependencies mem
resolve_init_order-decides cs valid =
    elim (IsReached-visit_each cs [] (visit cs (suc (length cs)))
      (Reaches-visit cs (validate_each-none (names cs) cs valid) (suc (length cs)) [] tt
        (omega (arith, length-names cs)))
      unvisited (names cs)
      (record {
        temp = refl;
        same = refl;
        distinct = tt;
        within = λ x h. ground (arith, h);
        ordered = tt;
        apart = λ x h. refl;
      })
      (λ d h. (h, tt))) [
        | inl (s, e, v, kept, all) ↦ inl (
          s.order,
          ap order_of e,
          record {
            distinct = v.distinct;
            complete = λ x. ground (arith, v.within x, all x);
            ordered = v.ordered;
          },
        )
        | inr (name, e, k) ↦ inr (name, ap order_of e, no_order cs k)
      ]
