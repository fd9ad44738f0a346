-- ===== src/Tool/Session/Reading.antt =====
-- What the reads of a session give together.
use mathlib.Core.List.{append-nil, append_assoc}
use heike.Prelude.{
  ℕ, zero, suc, ◌+◌, ◌-◌, ◌≤◌, ◌≡◌, refl, ap, sym, ◌∙◌, inl, inr, List, [], ◌∷◌, ◌++◌, arith, leb,
  ltb, if◌then◌else◌, length, drop, length-append, length-drop, Bool-cases,
}
use heike.Tool.Session.{
  max_session_buffer_bytes, ExecSession, append_within, append_output, completed, exited, failed,
  wait_ended, truncate_output_by_tokens, read_new_output, Op, append, wait, close, read, step,
  run_ops,
}
use heike.Tool.Session.Stream.{drop-append, drop-cong, drop_all}

abbrev pub unread : ExecSession → List ℕ
unread s = drop s.read_pos s.output

-- A chunk that fits the buffer beside what is unread, and a read of any number of tokens.
abbrev pub Fits : ExecSession → Op → Type 0
Fits s (append chunk) = length (unread s) + length chunk ≤ max_session_buffer_bytes
Fits s (wait w) = Unit
Fits s close = Unit
Fits s (read tokens) = tokens ≡ 0

-- The reader keeps up with the command, and reads without a limit.
abbrev pub KeepsUp : ExecSession → List Op → Type 0
KeepsUp s [] = Unit
KeepsUp s (op ∷ ops) = Fits s op × KeepsUp (step s op).0 ops

-- What an operation adds to the output.
abbrev pub added : Op → List ℕ
added (append chunk) = chunk
added (wait completed) = []
added (wait (exited code)) = []
added (wait (failed message)) = message
added close = []
added (read tokens) = []

abbrev pub all_added : List Op → List ℕ
all_added [] = []
all_added (op ∷ ops) = added op ++ all_added ops

abbrev pub joined : List (List ℕ) → List ℕ
joined [] = []
joined (l ∷ ls) = l ++ joined ls

-- The reader is within the buffer.
abbrev pub IsWithin : ExecSession → Type 0
IsWithin s = s.read_pos ≤ length s.output

drop-within :
    (k n : ℕ) (xs ys : List ℕ)
    → n ≤ length xs
    → k ≤ n
    → drop (n - k) (drop k (xs ++ ys)) ≡ drop n xs ++ ys
drop-within zero n xs ys h l = drop-cong (n - 0) n (xs ++ ys) (omega arith) ∙ drop-append n xs ys h
drop-within (suc k) zero xs ys h l = absurd (omega (arith, l))
drop-within (suc k) (suc n) [] ys h l = absurd (omega (arith, h))
drop-within (suc k) (suc n) (x ∷ xs) ys h l =
    ap (λ (m : ℕ). drop m (drop k (xs ++ ys))) (minus_suc n k)
    ∙ drop-within k n xs ys (omega (arith, h)) (omega (arith, l))
  where
    minus_suc : (a b : ℕ) → suc a - suc b ≡ a - b
    minus_suc a b = omega arith

-- A chunk is added to what is unread, for any size of the buffer.
append_within-unread :
    (size : ℕ) (s : ExecSession) (chunk : List ℕ)
    → IsWithin s
    → length (unread s) + length chunk ≤ size
    → (unread (append_within size s chunk) ≡ unread s ++ chunk)
      × IsWithin (append_within size s chunk)
append_within-unread size s chunk w f =
    let total = length-append s.output chunk in
    let left = length-drop s.read_pos s.output in
    elim (Bool-cases (leb (length (s.output ++ chunk)) size)) [
      | inl small ↦ rw small (drop-append s.read_pos s.output chunk w, omega (arith, w, total))
      | inr over ↦
          let k = length (s.output ++ chunk) - size in
          let before : k ≤ s.read_pos = ground (arith, over, total, left, f, w) in
          let pos : (if ltb k s.read_pos then s.read_pos - k else 0) ≡ s.read_pos - k =
            ground (arith, before) in
          rw over (
            ap (λ (m : ℕ). drop m (drop k (s.output ++ chunk))) pos
                ∙ drop-within k s.read_pos s.output chunk w before,
            omega (arith, pos, length-drop k (s.output ++ chunk), w, total, before),
          )
    ]

read-all :
    (s : ExecSession)
    → IsWithin s
    → ((read_new_output s 0).1 ++ unread (read_new_output s 0).0 ≡ unread s)
      × IsWithin (read_new_output s 0).0
unfolding read_new_output truncate_output_by_tokens
read-all s w = elim (Bool-cases (leb (length s.output) s.read_pos)) [
  | inl none_new ↦ rw (none_new, read_new_output) (refl, w)
  | inr more ↦
      rw (more, read_new_output)
        (
          ap (λ (l : List ℕ). drop s.read_pos s.output ++ l)
                (drop_all (length s.output) s.output (omega arith))
              ∙ append-nil (drop s.read_pos s.output),
          omega arith,
        )
]

step-unread :
    (s : ExecSession) (op : Op)
    → IsWithin s
    → Fits s op
    → ((step s op).1 ++ unread (step s op).0 ≡ unread s ++ added op) × IsWithin (step s op).0
unfolding step append_output wait_ended
step-unread s (append chunk) w f = append_within-unread max_session_buffer_bytes s chunk w f
step-unread s (wait completed) w f = (sym (append-nil (unread s)), w)
step-unread s (wait (exited code)) w f = (sym (append-nil (unread s)), w)
step-unread s (wait (failed message)) w f =
    (drop-append s.read_pos s.output message w, omega (arith, w, length-append s.output message))
step-unread s close w f = (sym (append-nil (unread s)), w)
step-unread s (read tokens) w f =
    rw f (let r = read-all s w in (r.0 ∙ sym (append-nil (unread s)), r.1))

-- When the reader keeps up, what the reads give, put together with what is still unread, is what was
-- unread before them and all that the command wrote since: nothing is lost and nothing comes twice.
pub run_ops-joined :
    (s : ExecSession) (ops : List Op)
    → IsWithin s
    → KeepsUp s ops
    → joined (run_ops s ops).1 ++ unread (run_ops s ops).0 ≡ unread s ++ all_added ops
unfolding run_ops
run_ops-joined s [] w k = sym (append-nil (unread s))
run_ops-joined s (op ∷ ops) w k =
    let here = step-unread s op w k.0 in
    let rest = run_ops-joined (step s op).0 ops here.1 k.1 in
    append_assoc (step s op).1 (joined (run_ops (step s op).0 ops).1)
      (unread (run_ops (step s op).0 ops).0)
    ∙ ap (λ (l : List ℕ). (step s op).1 ++ l) rest
    ∙ sym (append_assoc (step s op).1 (unread (step s op).0) (all_added ops))
    ∙ ap (λ (l : List ℕ). l ++ all_added ops) here.0
    ∙ append_assoc (unread s) (added op) (all_added ops)
