-- ===== src/Model/Router.antt =====
-- internal/model/router.go. A provider is what it answers: its `generate` is given the number of the
-- attempt too, so that two calls may differ. `Req`, `Resp` and `Vec` are the request, the response
-- and the embedding. `cancelled` is the error of the context before an attempt.
use heike.Prelude.{
  ℕ, zero, suc, String, Bool, ◌||◌, ◌&&◌, not, Option, none, some, List, [], ◌∷◌, ◌++◌, ◌==◌, leb,
  if◌then◌else◌, Dict, lookup, keys, mem,
}
use heike.Errors.{Err, Result, ok, err, sentinel, wrapped, of_category, internal, not_found}

pub record Provider (Req Resp Vec : Type 0) : Type 0 where
  pub generate : ℕ → Req → Result Resp
  pub embed : String → Result Vec

pub record Router (Req Resp Vec : Type 0) : Type 0 where
  pub providers : Dict (Provider Req Resp Vec)
  pub fallback : String
  pub max_fallback_attempts : ℕ

abbrev pub not_found_model : Err
not_found_model = of_category not_found "model not found"

-- The answer for a model that is not registered.
unfoldable pub resolve_fallback :
    {Req Resp Vec : Type 0} → Router Req Resp Vec → String → Result (Provider Req Resp Vec)
unfolding lookup
resolve_fallback r model =
    if not (r.fallback == "") && not (model == r.fallback)
    then elim (lookup r.fallback r.providers) [ none ↦ err not_found_model | some p ↦ ok p ]
    else err not_found_model

unfoldable pub resolve_provider :
    {Req Resp Vec : Type 0}
    → Router Req Resp Vec
    → Option Err
    → String
    → Result (Provider Req Resp Vec)
unfolding lookup resolve_fallback
resolve_provider r (some e) model = err (wrapped "%s: %w" ("provider resolution cancelled" ∷ []) e)
resolve_provider r none model = elim (lookup model r.providers) [
  | none ↦ resolve_fallback r model
  | some p ↦ ok p
]

abbrev pub failed_request : Err
failed_request = wrapped "%s: %w" ("provider request failed" ∷ []) (sentinel internal)

abbrev pub cancelled_request : Err → Err
cancelled_request e = wrapped "%s: %w" ("request execution cancelled" ∷ []) e

-- Puts a model before those asked later.
abbrev pub asking : {Resp : Type 0} → String → Result Resp × List String → Result Resp × List String
asking model (r, asked) = (r, model ∷ asked)

-- The loop of executeWithFallback from attempt number `attempt` with `left` attempts left, with
-- the models whose provider was asked.
unfoldable pub attempts :
    {Req Resp Vec : Type 0}
    → Router Req Resp Vec
    → (ℕ → Option Err)
    → Req
    → ℕ
    → ℕ
    → String
    → Provider Req Resp Vec
    → Result Resp × List String
unfolding lookup
attempts r cancelled req zero attempt model p =
    (err (of_category internal "fallback exhausted"), [])
attempts r cancelled req (suc left) attempt model p = elim (cancelled attempt) [
  | some e ↦ (err (cancelled_request e), [])
  | none ↦ asking model (elim (p.generate attempt req) [
    | ok a ↦ (ok a, [])
    | err e ↦
        if r.fallback == "" || model == r.fallback
        then (err failed_request, [])
        else elim (lookup r.fallback r.providers) [
          | none ↦ (err (of_category not_found "fallback model not found"), [])
          | some q ↦ attempts r cancelled req left (suc attempt) r.fallback q
        ]
  ])
]

-- config.DefaultModelMaxFallbackAttempts
abbrev pub default_max_attempts : ℕ
default_max_attempts = 2

unfoldable pub execute_with_fallback :
    {Req Resp Vec : Type 0}
    → Router Req Resp Vec
    → (ℕ → Option Err)
    → Req
    → String
    → Provider Req Resp Vec
    → Result Resp × List String
unfolding attempts
execute_with_fallback r cancelled req model p =
    attempts r cancelled req
      (if leb r.max_fallback_attempts 0 then default_max_attempts else r.max_fallback_attempts) 0
      model p

-- `before` is the context's error when the provider is resolved.
unfoldable pub route :
    {Req Resp Vec : Type 0}
    → Router Req Resp Vec
    → Option Err
    → (ℕ → Option Err)
    → Req
    → String
    → Result Resp × List String
unfolding resolve_provider execute_with_fallback
route r before cancelled req model = elim (resolve_provider r before model) [
  | err e ↦ (err e, [])
  | ok p ↦ execute_with_fallback r cancelled req model p
]

-- appendUnique: the order so far is also the set of the names seen.
unfoldable pub append_unique : List String → String → List String
unfolding mem
append_unique order name =
    if name == "" then order else if mem name order then order else order ++ name ∷ []

unfoldable pub append_all : List String → List String → List String
unfolding append_unique
append_all order [] = order
append_all order (name ∷ names) = append_all (append_unique order name) names

-- `sorted` is sort.Strings.
unfoldable pub embedding_try_order :
    {Req Resp Vec : Type 0}
    → (List String → List String)
    → Router Req Resp Vec
    → String
    → List String
unfolding append_all
embedding_try_order sorted r requested =
    append_all (append_unique (append_unique [] requested) r.fallback) (sorted (keys r.providers))

-- What the loop ends with: the last error that is not about embeddings being unsupported.
unfoldable pub embedding_failed : {Vec : Type 0} → Option Err → Result Vec
embedding_failed none = err (of_category not_found "no embedding-capable model configured")
embedding_failed (some e) = err (wrapped "%s: %w" ("embedding failed" ∷ []) (sentinel internal))

-- The loop of RouteEmbedding. `unsupported` is isEmbeddingUnsupported, a test on an error's text;
-- `cancelled` is the context's error before the attempt of that number.
unfoldable pub try_models :
    {Req Resp Vec : Type 0}
    → (Err → Bool)
    → Router Req Resp Vec
    → (ℕ → Option Err)
    → String
    → ℕ
    → Option Err
    → List String
    → Result Vec
unfolding lookup embedding_failed
try_models unsupported r cancelled text n last [] = embedding_failed last
try_models unsupported r cancelled text n last (model ∷ models) =
    let next = λ (e : Option Err). try_models unsupported r cancelled text (suc n) e models in
    elim (cancelled n) [
      | some e ↦ err (wrapped "%s: %w" ("embedding request cancelled" ∷ []) e)
      | none ↦ elim (lookup model r.providers) [
        | none ↦ next last
        | some p ↦ elim (p.embed text) [
          | ok v ↦ ok v
          | err e ↦ if unsupported e then next last else next (some e)
        ]
      ]
    ]

unfoldable pub route_embedding :
    {Req Resp Vec : Type 0}
    → (List String → List String)
    → (Err → Bool)
    → Router Req Resp Vec
    → (ℕ → Option Err)
    → String
    → String
    → Result Vec
unfolding try_models embedding_try_order
route_embedding sorted unsupported r cancelled model text =
    try_models unsupported r cancelled text 0 none (embedding_try_order sorted r model)
