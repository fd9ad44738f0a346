-- ===== src/Cognitive/Context/Pruning.antt =====
-- Pruning keeps within the budget, keeps the right end of each list, and is settled after one pass.
use mathlib.Core.List.{reverse, reverse-reverse, reverse-append, append-nil, append_assoc}
use heike.Prelude.{
  ℕ, ◌+◌, ◌-◌, ◌<◌, ◌≤◌, String, ◌≡◌, refl, ap, sym, ◌∙◌, inl, inr, List, [], ◌∷◌, ◌++◌, arith, leb,
  ltb, eqb, if_holds, Bool-cases,
}
use heike.Cognitive.Context.{
  Message, Context, estimate, message_cost, plan_cost, total, keep_first, keep_back, keep_last,
  prune_rest, prune,
}

module _ {ℓ} {A : Type ℓ} (cost : A → ℕ) where
  total-append : (xs ys : List A) → total cost (xs ++ ys) ≡ total cost xs + total cost ys
  unfolding total
  total-append [] ys = omega arith
  total-append (x ∷ xs) ys = omega (arith, total-append xs ys)

  total-reverse : (xs : List A) → total cost (reverse xs) ≡ total cost xs
  unfolding total
  total-reverse [] = refl
  total-reverse (x ∷ xs) =
      ap (total cost) (reverse-append (x ∷ []) xs)
      ∙ omega (arith, total-append (reverse xs) (x ∷ []), total-reverse xs)

  total-keep_first :
      (remaining : ℕ) (xs : List A)
      → total cost (keep_first cost remaining xs).0 + (keep_first cost remaining xs).1 ≡ remaining
  unfolding total keep_first
  total-keep_first remaining [] = omega arith
  total-keep_first remaining (x ∷ xs) = ground (arith, total-keep_first (remaining - cost x) xs)

  total-keep_back :
      (remaining : ℕ) (kept xs : List A)
      → total cost (keep_back cost remaining kept xs).0 + (keep_back cost remaining kept xs).1
        ≡ total cost kept + remaining
  unfolding total keep_back
  total-keep_back remaining kept [] = refl
  total-keep_back remaining kept (x ∷ xs) =
      ground (arith, total-keep_back (remaining - cost x) (x ∷ kept) xs)

  keep_first_all :
      (remaining : ℕ) (xs : List A)
      → total cost xs ≤ remaining
      → keep_first cost remaining xs ≡ (xs, remaining - total cost xs)
  unfolding total keep_first
  keep_first_all remaining [] h = ground arith
  keep_first_all remaining (x ∷ xs) h = ground (arith, keep_first_all (remaining - cost x) xs)

  keep_back_all :
      (remaining : ℕ) (kept xs : List A)
      → total cost xs ≤ remaining
      → keep_back cost remaining kept xs ≡ (reverse xs ++ kept, remaining - total cost xs)
  unfolding total keep_back
  keep_back_all remaining kept [] h = ground arith
  keep_back_all remaining kept (x ∷ xs) h = ground (
    arith,
    keep_back_all (remaining - cost x) (x ∷ kept) xs,
    reverse-append (x ∷ []) xs,
    append_assoc (reverse xs) (x ∷ []) kept,
  )

  -- What is kept is a beginning of the list.
  keep_first_prefix :
      (remaining : ℕ) (xs : List A)
      → (rest : List A) × (xs ≡ (keep_first cost remaining xs).0 ++ rest)
  unfolding keep_first
  keep_first_prefix remaining [] = ([], refl)
  keep_first_prefix remaining (x ∷ xs) = elim (Bool-cases (leb (cost x) remaining)) [
    | inl fits ↦
        let (rest, e) = keep_first_prefix (remaining - cost x) xs in
        (rest, rw fits (ap (λ (l : List A). x ∷ l) e))
    | inr big ↦ (x ∷ xs, rw big)
  ]

  keep_back_suffix :
      (remaining : ℕ) (kept xs : List A)
      → (rest : List A) × (reverse xs ++ kept ≡ rest ++ (keep_back cost remaining kept xs).0)
  unfolding keep_back
  keep_back_suffix remaining kept [] = ([], refl)
  keep_back_suffix remaining kept (x ∷ xs) = elim (Bool-cases (leb (cost x) remaining)) [
    | inl fits ↦
        let (rest, e) = keep_back_suffix (remaining - cost x) (x ∷ kept) xs in
        (
          rest,
          rw fits (
              ap (λ (l : List A). l ++ kept) (reverse-append (x ∷ []) xs)
              ∙ append_assoc (reverse xs) (x ∷ []) kept
              ∙ e),
        )
    | inr big ↦ (reverse (x ∷ xs), rw big)
  ]

  total-keep_last :
      (remaining : ℕ) (xs : List A)
      → total cost (keep_last cost remaining xs).0 + (keep_last cost remaining xs).1 ≡ remaining
  unfolding keep_last total
  total-keep_last remaining xs = omega (arith, total-keep_back remaining [] (reverse xs))

  keep_last_all :
      (remaining : ℕ) (xs : List A)
      → total cost xs ≤ remaining
      → keep_last cost remaining xs ≡ (xs, remaining - total cost xs)
  unfolding keep_last
  keep_last_all remaining xs h =
      rw (keep_back_all remaining [] (reverse xs) (omega (arith, total-reverse xs)))
        (rw (total-reverse xs) (rw (reverse-reverse xs) (rw (append-nil xs))))

  keep_last_suffix :
      (remaining : ℕ) (xs : List A)
      → (rest : List A) × (xs ≡ rest ++ (keep_last cost remaining xs).0)
  unfolding keep_last
  keep_last_suffix remaining xs =
      let (rest, e) = keep_back_suffix remaining [] (reverse xs) in
      (rest, sym (ap (λ (l : List A). l ++ []) (reverse-reverse xs) ∙ append-nil xs) ∙ e)

-- What the context costs by its own estimate.
abbrev pub content_cost : Context → ℕ
content_cost c =
    plan_cost c.current_plan
    + total estimate c.scratchpad
    + total estimate c.memories
    + total message_cost c.history

total-nil {ℓ} : {A : Type ℓ} (cost : A → ℕ) → total cost [] ≡ 0
unfolding total
total-nil cost = refl

rest_cost :
    (c : Context) (scratchpad : List String) (remaining : ℕ)
    → plan_cost c.current_plan + total estimate scratchpad + remaining ≡ c.token_budget
    → ((prune_rest c scratchpad remaining).token_usage
        ≡ content_cost (prune_rest c scratchpad remaining))
      × ((prune_rest c scratchpad remaining).token_usage ≤ c.token_budget)
unfolding prune_rest
rest_cost c scratchpad remaining h = omega (
  arith,
  total-keep_first estimate remaining c.memories,
  total-keep_last message_cost (keep_first estimate remaining c.memories).1 c.history,
)

-- After pruning to a positive budget, the usage is within the budget; it is exactly the cost of what
-- was kept, unless the plan alone is over the budget, and then nothing but the plan is kept.
pub prune_budget :
    (c : Context)
    → 0 < c.token_budget
    → ((prune c).token_usage ≤ c.token_budget)
      × (plan_cost c.current_plan ≤ c.token_budget → (prune c).token_usage ≡ content_cost (prune c))
      × (c.token_budget < plan_cost c.current_plan
          → ((prune c).scratchpad ≡ []) × ((prune c).memories ≡ []) × ((prune c).history ≡ []))
unfolding prune
prune_budget c pos = ground (
  arith,
  rest_cost c c.scratchpad
      (c.token_budget - (plan_cost c.current_plan + total estimate c.scratchpad)),
  rest_cost c trimmed.0 trimmed.1,
  total-keep_last estimate (c.token_budget - plan_cost c.current_plan) c.scratchpad,
)
  where
    trimmed : List String × ℕ
    trimmed = keep_last estimate (c.token_budget - plan_cost c.current_plan) c.scratchpad

rest_keeps :
    (c : Context) (scratchpad : List String) (remaining : ℕ)
    → ((later : List String) × (c.memories ≡ (prune_rest c scratchpad remaining).memories ++ later))
      × ((older : List Message) × (c.history
            ≡ older ++ (prune_rest c scratchpad remaining).history))
unfolding prune_rest
rest_keeps c scratchpad remaining = (
  keep_first_prefix estimate remaining c.memories,
  keep_last_suffix message_cost (keep_first estimate remaining c.memories).1 c.history,
)

-- Two contexts differ only by what was pruned: the first scratchpad entries and messages, the last
-- memories, and the usage.
pub record PrunedTo (c d : Context) : Type 0 where
  pub scratchpad : (older : List String) × (c.scratchpad ≡ older ++ d.scratchpad)
  pub memories : (later : List String) × (c.memories ≡ d.memories ++ later)
  pub history : (older : List Message) × (c.history ≡ older ++ d.history)
  pub same_plan : d.current_plan ≡ c.current_plan
  pub same_budget : d.token_budget ≡ c.token_budget

abbrev room : Context → ℕ
room c = c.token_budget - plan_cost c.current_plan

abbrev emptied : Context → Context
emptied c = record c { scratchpad = []; memories = []; history = []; token_usage = c.token_budget }

-- The four ends of `Prune`.
prune_cases {κ} :
    (P : Context → Type κ) (c : Context)
    → (c.token_budget ≡ 0 → P c)
    → (0 < c.token_budget
        → plan_cost c.current_plan + total estimate c.scratchpad ≤ c.token_budget
        → P (
            prune_rest c c.scratchpad
              (c.token_budget - (plan_cost c.current_plan + total estimate c.scratchpad))))
    → (0 < c.token_budget → c.token_budget < plan_cost c.current_plan → P (emptied c))
    → (0 < c.token_budget
        → plan_cost c.current_plan ≤ c.token_budget
        → P (
            prune_rest c
              (keep_last estimate (room c) c.scratchpad).0
              (keep_last estimate (room c) c.scratchpad).1))
    → P (prune c)
unfolding prune
prune_cases P c unlimited fits over trimmed =
    if_holds P (eqb c.token_budget 0) (λ h. unlimited (ground arith))
      (λ h.
        if_holds P (leb (plan_cost c.current_plan + total estimate c.scratchpad) c.token_budget)
          (λ k. fits (ground arith) (ground arith))
          (λ k.
            if_holds P (ltb c.token_budget (plan_cost c.current_plan))
              (λ l. over (ground arith) (ground arith))
              (λ l. trimmed (ground arith) (ground arith))))

-- Pruning drops only the oldest scratchpad entries, the last memories and the oldest messages; what
-- is kept stays in order, and the plan and the budget stay.
pub prune-PrunedTo : (c : Context) → PrunedTo c (prune c)
prune-PrunedTo c =
    prune_cases (PrunedTo c) c (λ _. unchanged) (λ _ _. rest c.scratchpad _ ([], refl))
      (λ _ _. nothing)
      (λ _ _.
        rest (keep_last estimate (room c) c.scratchpad).0 _
          (keep_last_suffix estimate (room c) c.scratchpad))
  where
    unchanged : PrunedTo c c
    unchanged = record {
      scratchpad = ([], refl);
      memories = ([], sym (append-nil c.memories));
      history = ([], refl);
      same_plan = refl;
      same_budget = refl;
    }

    nothing : PrunedTo c (emptied c)
    nothing = record {
      scratchpad = (c.scratchpad, sym (append-nil c.scratchpad));
      memories = (c.memories, refl);
      history = (c.history, sym (append-nil c.history));
      same_plan = refl;
      same_budget = refl;
    }

    rest :
        (s : List String) (remaining : ℕ)
        → ((older : List String) × (c.scratchpad ≡ older ++ s))
        → PrunedTo c (prune_rest c s remaining)
    rest s remaining h =
        unfold prune_rest in
        record {
          scratchpad = h;
          memories = (rest_keeps c s remaining).0;
          history = (rest_keeps c s remaining).1;
          same_plan = refl;
          same_budget = refl;
        }

prune_fitting :
    (c : Context)
    → 0 < c.token_budget
    → content_cost c ≤ c.token_budget
    → prune c ≡ record c { token_usage = content_cost c }
unfolding prune prune_rest
prune_fitting c pos fits = ground (
  arith,
  keep_first_all estimate left c.memories,
  keep_last_all message_cost (left - total estimate c.memories) c.history,
)
  where
    left : ℕ
    left = c.token_budget - (plan_cost c.current_plan + total estimate c.scratchpad)

rest_settled :
    (c : Context) (s : List String) (remaining : ℕ)
    → 0 < c.token_budget
    → plan_cost c.current_plan + total estimate s + remaining ≡ c.token_budget
    → prune (prune_rest c s remaining) ≡ prune_rest c s remaining
rest_settled c s remaining pos h =
    prune_fitting (prune_rest c s remaining) (budget pos) (omega (arith, cost.0, cost.1, budget_eq))
    ∙ ground (arith, cost.0)
  where
    cost :
        ((prune_rest c s remaining).token_usage ≡ content_cost (prune_rest c s remaining))
        × ((prune_rest c s remaining).token_usage ≤ c.token_budget)
    cost = rest_cost c s remaining h

    budget_eq : (prune_rest c s remaining).token_budget ≡ c.token_budget
    budget_eq = unfold prune_rest in refl

    budget : 0 < c.token_budget → 0 < (prune_rest c s remaining).token_budget
    budget p = rw budget_eq p

-- Pruning a pruned context changes nothing.
pub prune_settled : (c : Context) → prune (prune c) ≡ prune c
prune_settled c =
    prune_cases (λ d. prune d ≡ d) c (λ h. unfold prune in rw h)
      (λ pos h. rest_settled c c.scratchpad _ pos (omega arith)) (λ pos h. over pos h)
      (λ pos h.
        rest_settled c (keep_last estimate (room c) c.scratchpad).0
          (keep_last estimate (room c) c.scratchpad).1 pos
          (omega (arith, total-keep_last estimate (room c) c.scratchpad)))
  where
    over :
        0 < c.token_budget
        → c.token_budget < plan_cost c.current_plan
        → prune (emptied c) ≡ emptied c
    over pos h = unfold prune in ground (arith, total-nil estimate)
