-- ===== src/Daemon/Visiting.antt =====
-- What the visits of `resolveInitOrder` keep, and what they find.
use mathlib.Core.Path.{subst}
use heike.Prelude.{
  ℕ, zero, suc, ◌+◌, ◌<◌, String, ◌≡◌, refl, ap, sym, ◌∙◌, inl, inr, true, false, Option, some,
  List, [], ◌∷◌, ◌++◌, arith, ◌==◌, eq_iff, eq_refl, length, mem, without, mem-append,
  IsDistinct-snoc, Within, length-le_of_Within, Bool-cases,
}
use heike.Errors.{Result, ok}
use heike.Daemon.Order.{
  Component, names, get_component_by_name, Visits, go_on, visit_each, finish, enter, visit_body,
  visit,
}
use heike.Daemon.Ordering.{
  dependencies_in, dependencies_of, IsVisiting, IsNext, IsPath, IsReached, Reaches, IsAfter-snoc,
  IsPath-Within, IsPath-IsDistinct, IsCircular-of_path,
}

Within_trans : (xs ys zs : List String) → Within xs ys → Within ys zs → Within xs zs
Within_trans xs ys zs f g = λ x h. g x (f x h)

pub IsReached-visit_each :
    (cs : List Component) (path : List String) (go : Visits → String → Option (Result Visits))
    → Reaches cs path go
    → (s : Visits) (ds : List String) → IsVisiting cs path s
    → ((d : String) → mem d ds ≡ true → IsNext cs path d)
    → IsReached cs path s ds (visit_each go s ds)
unfolding mem
IsReached-visit_each cs path go r s [] v n = inl (s, refl, v, λ x h. h, λ x h. ground (arith, h))
IsReached-visit_each cs path go r s (d ∷ ds) v n =
    elim (r s d v (n d (ground (arith, eq_refl d)))) [
      | inl (s', e, v', kept, here) ↦
          elim (IsReached-visit_each cs path go r s' ds v' (λ x h. n x (ground (arith, h)))) [
            | inl (s'', e', v'', kept', there) ↦ inl (
              s'',
              ap (λ (o : Option (Result Visits)). go_on o (λ q. visit_each go q ds)) e ∙ e',
              v'',
              Within_trans s.order s'.order s''.order kept kept',
              λ x h. ground (arith, h, there x, kept' x, here x),
            )
            | inr (name, e', c) ↦ inr (
              name,
              ap (λ (o : Option (Result Visits)). go_on o (λ q. visit_each go q ds)) e ∙ e',
              c,
            )
          ]
      | inr (name, e, c) ↦
          inr (name, ap (λ (o : Option (Result Visits)). go_on o (λ q. visit_each go q ds)) e, c)
    ]

without-absent : (x : String) (ys : List String) → mem x ys ≡ false → without x ys ≡ ys
unfolding mem without
without-absent x [] h = refl
without-absent x (y ∷ ys) h = ground (arith, h, without-absent x ys)

-- The dependencies are visited: the name goes to the end of the order.
IsVisiting-finish :
    (cs : List Component) (path : List String) (x : String) (s : Visits)
    → mem x path ≡ false
    → mem x (names cs) ≡ true
    → IsVisiting cs (x ∷ path) s
    → Within (dependencies_of cs x) s.order
    → IsVisiting cs path (finish x s)
unfolding finish mem without
IsVisiting-finish cs path x s off known v deps =
    let fresh = v.apart x (ground (arith, eq_refl x)) in
    record {
      temp = ap (without x) v.temp ∙ ground (arith, eq_refl x, without-absent x path off);
      same = ap (λ (l : List String). l ++ x ∷ []) v.same;
      distinct = IsDistinct-snoc s.order x v.distinct fresh;
      within =
          λ y h. ground (arith, h, mem-append y s.order (x ∷ []), v.within y, eq_iff x y, known);
      ordered = IsAfter-snoc cs [] s.order x v.ordered deps;
      apart = λ y h. ground (arith, h, mem-append y s.order (x ∷ []), v.apart y, eq_iff x y, off);
    }

known-some :
    (cs : List Component) (x : String)
    → mem x (names cs) ≡ true
    → (c : Component) × (get_component_by_name cs x ≡ some c)
unfolding mem
known-some [] x h = ground (arith, h)
known-some (c ∷ cs) x h = elim (Bool-cases (c.name == x)) [
  | inl here ↦ (c, ground (arith, here))
  | inr later ↦
      let r = known-some cs x (ground (arith, h, later)) in (r.0, ground (arith, later, r.1))
]

push :
    (cs : List Component) (path : List String) (x : String) (s : Visits)
    → IsVisiting cs path s
    → mem x s.order ≡ false
    → IsVisiting cs (x ∷ path) (record s { temp_visited = x ∷ s.temp_visited })
unfolding mem
push cs path x s v fresh = record {
  temp = ap (λ (l : List String). x ∷ l) v.temp;
  same = v.same;
  distinct = v.distinct;
  within = v.within;
  ordered = v.ordered;
  apart = λ y h. ground (arith, h, v.apart y, eq_iff x y, fresh);
}

needed :
    (cs : List Component) (path : List String) (x : String) (c : Component)
    → get_component_by_name cs x ≡ some c
    → dependencies_of cs x ≡ c.dependencies
needed cs path x c e = ap dependencies_in e

IsReached-enter :
    (cs : List Component) (path : List String) (go : Visits → String → Option (Result Visits))
    (s : Visits) (x : String)
    → Reaches cs (x ∷ path) go
    → Within (dependencies_of cs x) (names cs)
    → IsPath cs (x ∷ path)
    → IsVisiting cs path s
    → mem x s.order ≡ false
    → IsReached cs path s (x ∷ []) (enter go x s (get_component_by_name cs x))
unfolding finish mem
IsReached-enter cs path go s x r deps p v fresh =
    let c = known-some cs x p.1.0 in
    let ds = ap dependencies_in c.1 in
    rw c.1
      (elim (IsReached-visit_each cs (x ∷ path) go r
        (record s { temp_visited = x ∷ s.temp_visited }) c.0.dependencies (push cs path x s v fresh)
        (λ d h. (deps d (ap (mem d) ds ∙ h), ap (mem d) ds ∙ h))) [
          | inl (s', e, v', kept, all) ↦ inl (
            finish x s',
            ap (λ (o : Option (Result Visits)). go_on o (λ q. some (ok (finish x q)))) e,
            IsVisiting-finish cs path x s' p.0 p.1.0 v'
                (subst (λ (l : List String). Within l s'.order) (sym ds) all),
            λ y h. ground (arith, mem-append y s'.order (x ∷ []), kept y, h),
            λ y h. ground (arith, mem-append y s'.order (x ∷ []), h),
          )
          | inr (name, e, k) ↦ inr (
            name,
            ap (λ (o : Option (Result Visits)). go_on o (λ q. some (ok (finish x q)))) e,
            k,
          )
        ])

module _ (cs : List Component)
    (deps : (x : String) → Within (dependencies_of cs x) (names cs)) where
  Reaches-visit_body :
      (path : List String) (go : Visits → String → Option (Result Visits))
      → IsPath cs path
      → ((x : String) → IsPath cs (x ∷ path) → Reaches cs (x ∷ path) go)
      → Reaches cs path (visit_body cs go)
  unfolding visit_body mem
  Reaches-visit_body path go p r s x v n = elim (Bool-cases (mem x path)) [
    | inl on ↦ inr (x, ground (arith, on, ap (mem x) v.temp), IsCircular-of_path cs x path p n.1 on)
    | inr off ↦ elim (Bool-cases (mem x s.order)) [
      | inl done ↦ inl (
        s,
        ground (arith, off, done, ap (mem x) v.temp, ap (mem x) v.same),
        v,
        λ y h. h,
        λ y h. ground (arith, h, done, eq_iff x y),
      )
      | inr fresh ↦
          subst (IsReached cs path s (x ∷ []))
            (ground (arith, off, fresh, ap (mem x) v.temp, ap (mem x) v.same))
            (IsReached-enter cs path go s x (r x (off, n, p)) (deps x) (off, n, p) v fresh)
    ]
  ]

  -- With fuel for the components that are not on the path, a visit ends.
  pub Reaches-visit :
      (fuel : ℕ) (path : List String)
      → IsPath cs path
      → length (names cs) < fuel + length path
      → Reaches cs path (visit cs fuel)
  unfolding visit
  Reaches-visit zero path p f = absurd (
      omega (
        arith,
        f,
        length-le_of_Within path (names cs) (IsPath-IsDistinct cs path p) (IsPath-Within cs path p),
      ))
  Reaches-visit (suc fuel) path p f =
      Reaches-visit_body path (visit cs fuel) p
        (λ x q. Reaches-visit fuel (x ∷ path) q (omega (arith, f)))
