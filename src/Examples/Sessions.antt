-- ===== src/Examples/Sessions.antt =====
-- A session whose reader keeps up, and one whose reader does not limit what it reads.
use heike.Prelude.{◌≡◌, refl, some, List, [], ◌∷◌, ◌++◌, arith}
use heike.Tool.Session.{
  new_session, exited, Op, append, wait, close, read, step, run_ops, truncate_output_by_tokens,
}
use heike.Tool.Session.Stream.{new_stream, Refines, run_stream, run_ops-Refines}
use heike.Tool.Session.Reading.{unread, KeepsUp, all_added, joined, IsWithin, run_ops-joined}

abbrev ops : List Op
ops = append (104 ∷ 105 ∷ []) ∷ read 0 ∷ append (33 ∷ []) ∷ wait (exited (some 0)) ∷ close ∷ []

-- A read of one token gives the last four bytes.
last_four : truncate_output_by_tokens (1 ∷ 2 ∷ 3 ∷ 4 ∷ 5 ∷ []) 1 ≡ 2 ∷ 3 ∷ 4 ∷ 5 ∷ []
unfolding truncate_output_by_tokens
last_four = refl

-- The product wraps around: 2 ^ 62 + 1 tokens are four bytes.
wrapped_around :
    truncate_output_by_tokens (1 ∷ 2 ∷ 3 ∷ 4 ∷ 5 ∷ []) 4611686018427387905 ≡ 2 ∷ 3 ∷ 4 ∷ 5 ∷ []
unfolding truncate_output_by_tokens
wrapped_around = refl

new-Refines : Refines new_session new_stream
new-Refines = record {
  output = refl;
  read_pos = omega arith;
  lost = omega arith;
  seen = omega arith;
}

run_ops-Refines_example :
    Refines (run_ops new_session ops).0 (run_stream new_stream ops).0
    × ((run_ops new_session ops).1 ≡ (run_stream new_stream ops).1)
run_ops-Refines_example = run_ops-Refines new_session new_stream ops new-Refines

ops-KeepsUp : KeepsUp new_session ops
unfolding step
ops-KeepsUp = (omega arith, (refl, (omega arith, (tt, (tt, tt)))))

new-IsWithin : IsWithin new_session
new-IsWithin = omega arith

run_ops-joined_example :
    joined (run_ops new_session ops).1 ++ unread (run_ops new_session ops).0
    ≡ unread new_session ++ all_added ops
run_ops-joined_example = run_ops-joined new_session ops new-IsWithin ops-KeepsUp
