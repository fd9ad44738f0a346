-- ===== src/Model/Fallback.antt =====
-- What the fallback of the model router comes to.
use heike.Prelude.{
  ℕ, zero, suc, String, ◌≡◌, ◌≢◌, refl, ◌||◌, Option, none, some, List, [], arith, ◌==◌, eq_refl,
  leb, if◌then◌else◌, lookup,
}
use heike.Errors.{Err, Result, ok, err, of_category, not_found}
use heike.Model.Router.{
  Provider, Router, failed_request, cancelled_request, asking, attempts, execute_with_fallback,
}

module _ {Req Resp Vec : Type 0} (r : Router Req Resp Vec) (req : Req) where
  -- The provider of the fallback, for a model that is not the fallback itself.
  unfoldable pub fallback_of : String → Result (Provider Req Resp Vec)
  fallback_of model =
      if r.fallback == "" || model == r.fallback
      then err failed_request
      else elim (lookup r.fallback r.providers) [
        | none ↦ err (of_category not_found "fallback model not found")
        | some q ↦ ok q
      ]

  -- The last attempt: an answer, or the error of a failed request.
  unfoldable pub last : Option Err → Provider Req Resp Vec → Result Resp × List String
  last (some e) q = (err (cancelled_request e), [])
  last none q =
      asking r.fallback
        (elim (q.generate 1 req) [ ok a ↦ (ok a, []) | err e ↦ (err failed_request, []) ])

  -- One attempt with the model, and when it fails one with the fallback.
  unfoldable pub once_each :
      (ℕ → Option Err) → String → Provider Req Resp Vec → Result Resp × List String
  unfolding fallback_of last
  once_each cancelled model p = elim (cancelled 0) [
    | some e ↦ (err (cancelled_request e), [])
    | none ↦ asking model (elim (p.generate 0 req) [
      | ok a ↦ (ok a, [])
      | err e ↦ elim (fallback_of model) [ err x ↦ (err x, []) | ok q ↦ last (cancelled 1) q ]
    ])
  ]

  second :
      (cancelled : ℕ → Option Err) (q : Provider Req Resp Vec) (n : ℕ)
      → attempts r cancelled req (suc n) 1 r.fallback q ≡ last (cancelled 1) q
  unfolding attempts last
  second cancelled q n = ground (arith, eq_refl r.fallback)

  first :
      (cancelled : ℕ → Option Err) (model : String) (p : Provider Req Resp Vec) (n : ℕ)
      → attempts r cancelled req (suc (suc n)) 0 model p ≡ once_each cancelled model p
  unfolding attempts once_each fallback_of
  first cancelled model p n = grind (arith, second)

  limit : (m : ℕ) → m ≢ 1 → (n : ℕ) × ((if leb m 0 then 2 else m) ≡ suc (suc n))
  limit zero h = (0, refl)
  limit (suc zero) h = ground (arith, h refl)
  limit (suc (suc m)) h = (m, ground arith)

  -- With two attempts or more, or the default number, the loop of `executeWithFallback` is one
  -- attempt with the model and, when its provider fails and another model is the fallback, one
  -- attempt with that one: more attempts are never made, and it never ends by running out of them.
  pub execute_with_fallback-once_each :
      (cancelled : ℕ → Option Err) (model : String) (p : Provider Req Resp Vec)
      → r.max_fallback_attempts ≢ 1
      → execute_with_fallback r cancelled req model p ≡ once_each cancelled model p
  unfolding execute_with_fallback
  execute_with_fallback-once_each cancelled model p h =
      let l = limit r.max_fallback_attempts h in rw l.1 (first cancelled model p l.0)
