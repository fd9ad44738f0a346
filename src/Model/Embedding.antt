-- ===== src/Model/Embedding.antt =====
-- The order in which an embedding is tried, and what it finds.
use heike.Prelude.{
  ℕ, suc, String, ◌≡◌, ◌≢◌, refl, ◌∙◌, inl, inr, Bool, true, false, ◌||◌, ◌&&◌, not, Option, none,
  some, List, [], ◌∷◌, arith, ◌==◌, eq_iff, Dict, lookup, keys, Bool-cases, if_holds, mem,
  mem-append, mem-single, IsDistinct, IsDistinct-snoc,
}
use heike.Errors.{Err, Result, ok, err}
use heike.Model.Router.{
  Provider, Router, append_unique, append_all, embedding_try_order, try_models, route_embedding,
}

abbrev pub is_ok : {A : Type 0} → Result A → Bool
is_ok (ok a) = true
is_ok (err e) = false

mem-append_unique :
    (x : String) (order : List String) (name : String)
    → mem x (append_unique order name) ≡ mem x order || (not (name == "") && name == x)
unfolding append_unique
mem-append_unique x order name =
    grind (arith, mem-append, eq_iff name x, eq_iff name "", mem-single x name)

mem-append_all :
    (x : String) (order names : List String)
    → mem x (append_all order names) ≡ mem x order || (not (x == "") && mem x names)
unfolding append_all mem
mem-append_all x order [] = ground arith
mem-append_all x order (n ∷ names) = grind (
  arith,
  mem-append_all x (append_unique order n) names,
  mem-append_unique,
  eq_iff n x,
  eq_iff x "",
  eq_iff n "",
)

IsDistinct-append_unique :
    (order : List String) (name : String) → IsDistinct order → IsDistinct (append_unique order name)
unfolding append_unique
IsDistinct-append_unique order name d =
    if_holds IsDistinct (name == "") (λ e. d)
      (λ e. if_holds IsDistinct (mem name order) (λ f. d) (λ f. IsDistinct-snoc order name d f))

IsDistinct-append_all :
    (order names : List String) → IsDistinct order → IsDistinct (append_all order names)
unfolding append_all
IsDistinct-append_all order [] d = d
IsDistinct-append_all order (n ∷ names) d =
    IsDistinct-append_all (append_unique order n) names (IsDistinct-append_unique order n d)

-- `RouteEmbedding` tries each model at most once, and a model is tried exactly when it has a name
-- and is the one requested, the fallback or a registered one, where sorting keeps the names.
pub embedding_try_order_complete :
    {Req Resp Vec : Type 0} (sorted : List String → List String) (r : Router Req Resp Vec)
    (requested : String)
    → ((x : String) (names : List String) → mem x (sorted names) ≡ mem x names)
    → IsDistinct (embedding_try_order sorted r requested)
      × ((x : String)
          → mem x (embedding_try_order sorted r requested)
            ≡ not (x == "") && (requested == x || (r.fallback == x || mem x (keys r.providers))))
unfolding embedding_try_order
embedding_try_order_complete sorted r requested same = (
  IsDistinct-append_all (append_unique (append_unique [] requested) r.fallback)
      (sorted (keys r.providers))
      (IsDistinct-append_unique (append_unique [] requested) r.fallback
        (IsDistinct-append_unique [] requested tt)),
  λ x.
      mem-append_all x (append_unique (append_unique [] requested) r.fallback)
        (sorted (keys r.providers))
      ∙ tried x,
)
  where
    tried :
        (x : String)
        → (mem x (append_unique (append_unique [] requested) r.fallback)
            || (not (x == "") && mem x (sorted (keys r.providers))))
          ≡ not (x == "") && (requested == x || (r.fallback == x || mem x (keys r.providers)))
    tried x =
        unfold mem in
        rw same (
          rw mem-append_unique (
            rw mem-append_unique (
              ground (
                arith,
                eq_iff requested x,
                eq_iff r.fallback x,
                eq_iff requested "",
                eq_iff r.fallback "",
                eq_iff x "",
              ))))

tried_all :
    {Req Resp Vec : Type 0} (unsupported : Err → Bool) (r : Router Req Resp Vec) (text : String)
    (model : String) (p : Provider Req Resp Vec) (v : Vec) (n : ℕ) (e : Option Err)
    (order : List String)
    → lookup model r.providers ≡ some p
    → p.embed text ≡ ok v
    → mem model order ≡ true
    → is_ok (try_models unsupported r (λ k. none) text n e order) ≡ true
unfolding try_models mem
tried_all unsupported r text model p v n e [] found works m = ground (arith, m)
tried_all unsupported r text model p v n e (x ∷ xs) found works m = elim (Bool-cases (x == model)) [
  | inl same ↦ ground (arith, eq_iff x model, found, works)
  | inr other ↦
      let later = λ (e' : Option Err).
        tried_all unsupported r text model p v (suc n) e' xs found works (ground (arith, m)) in
      grind (arith, later)
]

mem-keys :
    {P : Type 0} (model : String) (q : P) (d : Dict P)
    → lookup model d ≡ some q
    → mem model (keys d) ≡ true
unfolding lookup mem
mem-keys model q [] h = ground (arith, h)
mem-keys model q ((k, x) ∷ d) h = elim (Bool-cases (k == model)) [
  | inl same ↦ rw same refl
  | inr other ↦ rw other (mem-keys model q d (rw other at h))
]

-- In a context that is not cancelled, `RouteEmbedding` returns an embedding whenever some
-- registered model with a name can embed the text, whichever model is requested and however the
-- others fail.
pub route_embedding-found :
    {Req Resp Vec : Type 0} (sorted : List String → List String) (unsupported : Err → Bool)
    (r : Router Req Resp Vec) (requested text model : String) (p : Provider Req Resp Vec) (v : Vec)
    → ((x : String) (names : List String) → mem x (sorted names) ≡ mem x names)
    → model ≢ ""
    → lookup model r.providers ≡ some p
    → p.embed text ≡ ok v
    → is_ok (route_embedding sorted unsupported r (λ k. none) requested text) ≡ true
unfolding route_embedding
route_embedding-found sorted unsupported r requested text model p v same named found works =
    tried_all unsupported r text model p v 0 none (embedding_try_order sorted r requested) found
      works
      ((embedding_try_order_complete sorted r requested same).1 model
        ∙ ground (arith, eq_iff model "", named, mem-keys model p r.providers found))
