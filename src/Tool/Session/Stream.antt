-- ===== src/Tool/Session/Stream.antt =====
-- The buffer of a session against the stream of all that the command wrote.
use heike.Prelude.{
  ℕ, zero, suc, ◌+◌, ◌-◌, ◌≤◌, ◌≡◌, refl, ap, sym, ◌∙◌, inl, inr, List, [], ◌∷◌, ◌++◌, arith, leb,
  if◌then◌else◌, length, drop, length-append, length-drop, Bool-cases,
}
use heike.Tool.Session.{
  max_session_buffer_bytes, ExecSession, append_within, append_output, Wait, completed, exited,
  failed, wait_ended, truncate_output_by_tokens, read_new_output, Op, append, wait, close, read,
  step, run_ops,
}

-- All that was written, how much of it was read or passed over, and how much no longer is kept.
pub record Stream : Type 0 where
  pub written : List ℕ
  pub seen : ℕ
  pub lost : ℕ

abbrev pub new_stream : Stream
new_stream = record { written = []; seen = 0; lost = 0 }

abbrev pub max : ℕ → ℕ → ℕ
max a b = if leb a b then b else a

abbrev pub report : Stream → Wait → Stream
report s completed = s
report s (exited code) = s
report s (failed message) = record s { written = s.written ++ message }

-- A chunk keeps the last bytes up to the size of the buffer; the message of a failed wait is kept
-- besides. A read gives what was not read and is kept, as far as its tokens go.
unfoldable pub stream_step : Stream → Op → Stream × List ℕ
stream_step s (append chunk) = (
  record s {
    written = s.written ++ chunk;
    lost = max s.lost (length (s.written ++ chunk) - max_session_buffer_bytes);
  },
  [],
)
stream_step s (wait w) = (report s w, [])
stream_step s close = (s, [])
stream_step s (read tokens) = (
  record s { seen = length s.written },
  truncate_output_by_tokens (drop (max s.seen s.lost) s.written) tokens,
)

unfoldable pub run_stream : Stream → List Op → Stream × List (List ℕ)
unfolding stream_step
run_stream s [] = (s, [])
run_stream s (op ∷ ops) =
    let next = stream_step s op in let later = run_stream next.0 ops in (later.0, next.1 ∷ later.1)

-- The buffer holds the part of the stream that is kept.
pub record Refines (s : ExecSession) (t : Stream) : Type 0 where
  pub output : s.output ≡ drop t.lost t.written
  pub read_pos : s.read_pos ≡ t.seen - t.lost
  pub lost : t.lost ≤ length t.written
  pub seen : t.seen ≤ length t.written

pub drop-append : (n : ℕ) (xs ys : List ℕ) → n ≤ length xs → drop n (xs ++ ys) ≡ drop n xs ++ ys
drop-append zero xs ys h = refl
drop-append (suc n) [] ys h = absurd (omega (arith, h))
drop-append (suc n) (x ∷ xs) ys h = drop-append n xs ys (omega (arith, h))

pub drop-cong : (m n : ℕ) (xs : List ℕ) → m ≡ n → drop m xs ≡ drop n xs
drop-cong m n xs h = ap (λ (k : ℕ). drop k xs) h

abbrev empty : List ℕ
empty = []

drop-nil : (n : ℕ) → drop n [] ≡ empty
drop-nil zero = refl
drop-nil (suc n) = refl

drop-drop : (m n : ℕ) (xs : List ℕ) → drop m (drop n xs) ≡ drop (n + m) xs
drop-drop m zero xs = drop-cong m (0 + m) xs (omega arith)
drop-drop m (suc n) [] = drop-nil m ∙ sym (drop-nil (suc n + m))
drop-drop m (suc n) (x ∷ xs) =
    drop-drop m n xs ∙ drop-cong (suc (n + m)) (suc n + m) (x ∷ xs) (omega arith)

pub drop_all : (n : ℕ) (xs : List ℕ) → length xs ≤ n → drop n xs ≡ []
drop_all zero [] h = refl
drop_all (suc n) [] h = refl
drop_all zero (x ∷ xs) h = absurd (omega (arith, h))
drop_all (suc n) (x ∷ xs) h = drop_all n xs (omega (arith, h))

truncate-nil : (tokens : ℕ) → truncate_output_by_tokens [] tokens ≡ []
unfolding truncate_output_by_tokens
truncate-nil tokens = ground arith

-- One chunk, for any size of the buffer.
append_within-Refines :
    (size : ℕ) (s : ExecSession) (t : Stream) (chunk : List ℕ)
    → Refines s t
    → Refines (append_within size s chunk) (record t {
      written = t.written ++ chunk;
      lost = max t.lost (length (t.written ++ chunk) - size);
    })
append_within-Refines size s t chunk r =
    let whole : s.output ++ chunk ≡ drop t.lost (t.written ++ chunk) =
      ap (λ (l : List ℕ). l ++ chunk) r.output ∙ sym (drop-append t.lost t.written chunk r.lost) in
    let count = ap length whole ∙ length-drop t.lost (t.written ++ chunk) in
    let total = length-append t.written chunk in
    elim (Bool-cases (leb (length (s.output ++ chunk)) size)) [
      | inl fits ↦
          let same : t.lost ≡ max t.lost (length (t.written ++ chunk) - size) =
            ground (arith, fits, count) in
          rw fits (record {
            output = whole ∙ drop-cong _ _ (t.written ++ chunk) same;
            read_pos = r.read_pos ∙ omega (arith, same);
            lost = omega (arith, same, r.lost, total);
            seen = omega (arith, r.seen, total);
          })
      | inr over ↦
          let same : t.lost + (length (s.output ++ chunk) - size)
              ≡ max t.lost (length (t.written ++ chunk) - size) =
            ground (arith, over, count) in
          rw over (record {
            output =
                ap (drop (length (s.output ++ chunk) - size)) whole
                ∙ drop-drop (length (s.output ++ chunk) - size) t.lost (t.written ++ chunk)
                ∙ drop-cong _ _ (t.written ++ chunk) same;
            read_pos = ground (arith, r.read_pos, same);
            lost = ground (arith, count, over, same);
            seen = omega (arith, r.seen, total);
          })
    ]

read-Refines :
    (s : ExecSession) (t : Stream) (tokens : ℕ)
    → Refines s t
    → Refines (read_new_output s tokens).0 (record t { seen = length t.written })
      × ((read_new_output s tokens).1
          ≡ truncate_output_by_tokens (drop (max t.seen t.lost) t.written) tokens)
unfolding read_new_output
read-Refines s t tokens r =
    let count = ap length r.output ∙ length-drop t.lost t.written in
    elim (Bool-cases (leb (length s.output) s.read_pos)) [
      | inl read_all ↦
          let nothing : drop (max t.seen t.lost) t.written ≡ [] =
            drop_all (max t.seen t.lost) t.written
              (ground (arith, r.read_pos, count, read_all, r.seen, r.lost)) in
          rw (read_all, read_new_output)
            (
              record {
                output = r.output;
                read_pos = ground (arith, r.read_pos, count, read_all, r.seen, r.lost);
                lost = r.lost;
                seen = omega arith;
              },
              sym (
                  ap (λ (l : List ℕ). truncate_output_by_tokens l tokens) nothing
                  ∙ truncate-nil tokens),
            )
      | inr more ↦
          rw (more, read_new_output)
            (
              record { output = r.output; read_pos = count; lost = r.lost; seen = omega arith },
              ap (λ (l : List ℕ). truncate_output_by_tokens l tokens)
                  (ap (drop s.read_pos) r.output
                    ∙ drop-drop s.read_pos t.lost t.written
                    ∙ drop-cong _ _ t.written (ground (arith, r.read_pos))),
            )
    ]

step-Refines :
    (s : ExecSession) (t : Stream) (op : Op)
    → Refines s t
    → Refines (step s op).0 (stream_step t op).0 × ((step s op).1 ≡ (stream_step t op).1)
unfolding step stream_step append_output wait_ended
step-Refines s t (append chunk) r =
    (append_within-Refines max_session_buffer_bytes s t chunk r, refl)
step-Refines s t (wait completed) r = (r, refl)
step-Refines s t (wait (exited code)) r =
    (record { output = r.output; read_pos = r.read_pos; lost = r.lost; seen = r.seen }, refl)
step-Refines s t (wait (failed message)) r = (
  record {
    output =
        ap (λ (l : List ℕ). l ++ message) r.output
        ∙ sym (drop-append t.lost t.written message r.lost);
    read_pos = r.read_pos;
    lost = omega (arith, r.lost, length-append t.written message);
    seen = omega (arith, r.seen, length-append t.written message);
  },
  refl,
)
step-Refines s t close r =
    (record { output = r.output; read_pos = r.read_pos; lost = r.lost; seen = r.seen }, refl)
step-Refines s t (read tokens) r = read-Refines s t tokens r

-- Whatever the order of chunks, waits and reads, each read of the buffer gives what the stream
-- gives: the bytes that were not read before and are among those that are kept, cut to the tokens.
pub run_ops-Refines :
    (s : ExecSession) (t : Stream) (ops : List Op)
    → Refines s t
    → Refines (run_ops s ops).0 (run_stream t ops).0 × ((run_ops s ops).1 ≡ (run_stream t ops).1)
unfolding run_ops run_stream
run_ops-Refines s t [] r = (r, refl)
run_ops-Refines s t (op ∷ ops) r =
    let here = step-Refines s t op r in
    let rest = run_ops-Refines (step s op).0 (stream_step t op).0 ops here.0 in
    (
      rest.0,
      ap (λ (l : List ℕ). l ∷ (run_ops (step s op).0 ops).1) here.1
          ∙ ap (λ (ls : List (List ℕ)). (stream_step t op).1 ∷ ls) rest.1,
    )
