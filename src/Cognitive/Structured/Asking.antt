-- ===== src/Cognitive/Structured/Asking.antt =====
-- Which answer of the language model is taken.
use mathlib.Core.Path.{subst}
use heike.Prelude.{
  ℕ, zero, suc, ◌+◌, ◌<◌, String, ◌≡◌, ◌⊎◌, refl, inl, inr, ap, ◌∙◌, Option, none, some, arith,
  Option-cases, [], sym,
}
use heike.Errors.{Err, Result, ok, err, wrapped, of_category, invalid_model_output, Result-cases}
use heike.Cognitive.Structured.{ask, read_answer, read_or}

module _ {A : Type 0} (read : String → Option A) (complete : ℕ → Result String) where
  -- The model answers the attempt with a text that cannot be read.
  abbrev pub IsUnread : ℕ → Type 0
  IsUnread k = (r : String) × (complete k ≡ ok r) × (read r ≡ none)

  -- So it does `m` times from the attempt `n` on.
  abbrev pub AllUnread : ℕ → ℕ → Type 0
  AllUnread n zero = Unit
  AllUnread n (suc m) = IsUnread n × AllUnread (suc n) m

  -- The first answer that can be read, in `left` attempts from `n` on.
  pub record IsFirst (n left : ℕ) (x : A) : Type 0 where
    pub tried : ℕ
    pub within : tried < left
    pub unread : AllUnread n tried
    pub response : String
    pub answered : complete (n + tried) ≡ ok response
    pub taken : read response ≡ some x

  -- A call of the model fails before there is such an answer.
  pub record IsLost (n left : ℕ) (e : Err) : Type 0 where
    pub tried : ℕ
    pub within : tried < left
    pub unread : AllUnread n tried
    pub failed : complete (n + tried) ≡ err e

  module _ (failure invalid : String) where
    abbrev pub Decided : ℕ → ℕ → Result A → Type 0
    Decided n left r =
        ((x : A) × (r ≡ ok x) × IsFirst n left x)
        ⊎ ((e : Err) × (r ≡ err (wrapped failure [] e)) × IsLost n left e)
        ⊎ ((r ≡ err (of_category invalid_model_output invalid)) × AllUnread n left)

    Decided-suc :
        (n left : ℕ) (r : Result A) → IsUnread n → Decided (suc n) left r → Decided n (suc left) r
    Decided-suc n left r u (inl (x, e, f)) = inl (
      x,
      e,
      record {
        tried = suc f.tried;
        within = omega (arith, f.within);
        unread = (u, f.unread);
        response = f.response;
        answered = ap complete (omega arith) ∙ f.answered;
        taken = f.taken;
      },
    )
    Decided-suc n left r u (inr (inl (x, e, f))) = inr (
        inl (
          x,
          e,
          record {
            tried = suc f.tried;
            within = omega (arith, f.within);
            unread = (u, f.unread);
            failed = ap complete (omega arith) ∙ f.failed;
          },
        ))
    Decided-suc n left r u (inr (inr (e, all))) = inr (inr (e, (u, all)))

    -- A loop that asks the language model ends within its attempts, in one of three ways: with the
    -- first answer that can be read; with the error of the first call that fails, if no answer before
    -- it could be read; or with the error for invalid output, if the model answered every attempt with
    -- a text that cannot be read.
    pub ask-decides : (left n : ℕ) → Decided n left (ask failure invalid read complete left n)
    unfolding ask
    ask-decides zero n = inr (inr (refl, tt))
    ask-decides (suc left) n =
        let later = ask failure invalid read complete left (suc n) in
        elim (Result-cases (complete n)) [
          | inr (e, lost) ↦ inr (
              inl (
                e,
                ap (λ a. read_answer failure read a later) lost,
                record {
                  tried = 0;
                  within = omega arith;
                  unread = tt;
                  failed = ap complete (omega arith) ∙ lost;
                },
              ))
          | inl (r, said) ↦
              let answered = ap (λ a. read_answer failure read a later) said in
              elim (Option-cases (read r)) [
                | inr (x, found) ↦ inl (
                  x,
                  answered ∙ ap (λ o. read_or o later) found,
                  record {
                    tried = 0;
                    within = omega arith;
                    unread = tt;
                    response = r;
                    answered = ap complete (omega arith) ∙ said;
                    taken = found;
                  },
                )
                | inl unread ↦
                    subst (Decided n (suc left)) (sym (answered ∙ ap (λ o. read_or o later) unread))
                      (Decided-suc n left later (r, said, unread) (ask-decides left (suc n)))
              ]
        ]
