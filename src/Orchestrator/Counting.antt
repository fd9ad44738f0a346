-- ===== src/Orchestrator/Counting.antt =====
-- What the counts of open dependencies come to, and which names a batch frees.
use heike.Prelude.{
  ℕ, ◌+◌, ◌-◌, String, ◌≡◌, refl, sym, ◌∙◌, true, false, ◌&&◌, ◌||◌, List, [], ◌∷◌, ◌++◌, arith,
  ◌==◌, eq_iff, eq_refl, eqb, leb, ltb, if◌then◌else◌, Dict, lookup, lookup-insert, mem, mem-append,
  mem-single, IsDistinct, IsDistinct-snoc, if_holds,
}
use heike.Orchestrator.Batches.{degree_of, names_of, add_name, release, release_each, release_all}

abbrev pub count : String → List String → ℕ
count x [] = 0
count x (y ∷ ys) = (if y == x then 1 else 0) + count x ys

pub count-append : (x : String) (ys zs : List String) → count x (ys ++ zs) ≡ count x ys + count x zs
count-append x [] zs = omega arith
count-append x (y ∷ ys) zs = omega (arith, count-append x ys zs)

-- The names of the list that are not among those done.
abbrev pub open_names : List String → List String → ℕ
open_names d [] = 0
open_names d (y ∷ ys) = (if mem y d then 0 else 1) + open_names d ys

pub open_names-cong :
    (d e ys : List String) → ((x : String) → mem x d ≡ mem x e) → open_names d ys ≡ open_names e ys
open_names-cong d e [] same = refl
open_names-cong d e (y ∷ ys) same = rw (same y) (omega (arith, open_names-cong d e ys same))

open_names-cons :
    (r : String) (d ys : List String)
    → mem r d ≡ false
    → open_names d ys ≡ open_names (r ∷ d) ys + count r ys
unfolding mem
open_names-cons r d [] h = omega arith
open_names-cons r d (y ∷ ys) h = ground (arith, open_names-cons r d ys h, eq_iff r y, eq_iff y r)

-- How often the names of a batch stand in the list.
abbrev pub hits : List String → List String → ℕ
hits [] ys = 0
hits (r ∷ rs) ys = count r ys + hits rs ys

mem_swap :
    (r : String) (d rs : List String) (x : String) → mem x ((r ∷ d) ++ rs) ≡ mem x (d ++ r ∷ rs)
unfolding mem
mem_swap r d rs x = ground (arith, mem-append x d (r ∷ rs), mem-append x d rs)

pub open_names-append :
    (d rs ys : List String)
    → IsDistinct rs
    → ((x : String) → mem x rs ≡ true → mem x d ≡ false)
    → open_names d ys ≡ open_names (d ++ rs) ys + hits rs ys
unfolding mem
open_names-append d [] ys u apart =
    open_names-cong d (d ++ []) ys (λ x. ground (arith, mem-append x d [])) ∙ omega arith
open_names-append d (r ∷ rs) ys u apart =
    let one = open_names-cons r d ys (apart r (ground (arith, eq_refl r))) in
    let rest =
      open_names-append (r ∷ d) rs ys u.1 (λ x m. ground (arith, apart x, m, eq_iff r x, u.0)) in
    let same = open_names-cong ((r ∷ d) ++ rs) (d ++ r ∷ rs) ys (mem_swap r d rs) in
    omega (arith, one, rest, same)

abbrev pub degree : Dict ℕ → String → ℕ
degree m x = degree_of (lookup x m)

degree-release :
    (m : Dict ℕ) (next : List String) (id x : String)
    → degree (release (m, next) id).0 x ≡ degree m x - count x (id ∷ [])
degree-release m next id x = ground (arith, lookup-insert id x (degree m id - 1) m, eq_iff id x)

pub degree-release_each :
    (m : Dict ℕ) (next ids : List String) (x : String)
    → degree (release_each (m, next) ids).0 x ≡ degree m x - count x ids
unfolding release_each
degree-release_each m next [] x = omega arith
degree-release_each m next (id ∷ ids) x =
    degree-release_each (release (m, next) id).0 (release (m, next) id).1 ids x
    ∙ omega (arith, degree-release m next id x)

mem-add_name :
    (x : String) (names : List String) (id : String)
    → mem x (add_name names id) ≡ mem x names || id == x
mem-add_name x names id = ground (arith, mem-append x names (id ∷ []), mem-single x id, eq_iff id x)

-- A name is freed when its degree was above 0 and is used up.
pub freed-release_each :
    (m : Dict ℕ) (next ids : List String) (x : String)
    → mem x (release_each (m, next) ids).1
      ≡ mem x next || (ltb 0 (degree m x) && leb (degree m x) (count x ids))
unfolding release_each
freed-release_each m next [] x = ground arith
freed-release_each m next (id ∷ ids) x =
    freed-release_each (release (m, next) id).0 (release (m, next) id).1 ids x
    ∙ ground (arith, degree-release m next id x, mem-add_name x next id, eq_iff id x)

pub IsDistinct-release_each :
    (m : Dict ℕ) (next ids : List String)
    → IsDistinct next
    → IsDistinct (release_each (m, next) ids).1
unfolding release_each
IsDistinct-release_each m next [] u = u
IsDistinct-release_each m next (id ∷ ids) u =
    IsDistinct-release_each (release (m, next) id).0 (release (m, next) id).1 ids (
      if_holds IsDistinct (eqb (degree m id) 1)
        (λ one. if_holds IsDistinct (mem id next) (λ old. u) (λ new. IsDistinct-snoc next id u new))
        (λ more. u))

-- The names whose degree a batch lowers, in order.
abbrev pub dependents_of : Dict (List String) → List String → List String
dependents_of m [] = []
dependents_of m (id ∷ ids) = names_of (lookup id m) ++ dependents_of m ids

release_each-append :
    (r : Dict ℕ × List String) (xs ys : List String)
    → release_each r (xs ++ ys) ≡ release_each (release_each r xs) ys
unfolding release_each
release_each-append r [] ys = refl
release_each-append r (x ∷ xs) ys = release_each-append (release r x) xs ys

pub release_all-release_each :
    (m : Dict (List String)) (r : Dict ℕ × List String) (ids : List String)
    → release_all m r ids ≡ release_each r (dependents_of m ids)
unfolding release_all release_each
release_all-release_each m r [] = refl
release_all-release_each m r (id ∷ ids) =
    release_all-release_each m (release_each r (names_of (lookup id m))) ids
    ∙ sym (release_each-append r (names_of (lookup id m)) (dependents_of m ids))
