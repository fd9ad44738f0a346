-- ===== src/Idempotency.antt =====
-- internal/idempotency/store.go: the keys of the events that were taken, with their expiry. Times
-- are Unix seconds, a duration is in nanoseconds; both are natural numbers. `saved` is the file.
pub mod Once
use heike.Prelude.{
  ℕ, suc, ◌+◌, ◌/◌, String, Bool, true, false, Option, none, some, List, [], ◌∷◌, ltb,
  if◌then◌else◌, Dict, lookup, insert, delete,
}

pub record Store : Type 0 where
  pub keys : Dict ℕ
  pub saved : Dict ℕ

-- int64(ttl.Seconds())
unfoldable pub seconds : ℕ → ℕ
seconds ttl = ttl / 1000000000

-- NewStore and `load`: `none` is a file that does not exist, which is then written.
unfoldable pub new_store : Option (Dict ℕ) → Store
new_store none = record { keys = []; saved = [] }
new_store (some file) = record { keys = file; saved = file }

-- Save: an error of the write leaves the file as it was.
unfoldable pub save : Bool → Store → Store
save true s = record s { saved = s.keys }
save false s = s

-- The branches on what the map holds for the key.
unfoldable pub mark_found : Store → ℕ → String → ℕ → Option ℕ → Store × Bool
unfolding insert delete
mark_found s now key ttl none = (record s { keys = insert key (now + seconds ttl) s.keys }, false)
mark_found s now key ttl (some expiry) =
    if ltb now expiry
    then (s, true)
    else (record s { keys = insert key (now + seconds ttl) (delete key s.keys) }, false)

unfoldable pub check_and_mark : Store → ℕ → String → ℕ → Store × Bool
unfolding lookup mark_found
check_and_mark s now key ttl = mark_found s now key ttl (lookup key s.keys)

-- The loop of `Prune`, with the number of keys that it deletes.
unfoldable pub prune_keys : ℕ → Dict ℕ → Dict ℕ × ℕ
prune_keys now [] = ([], 0)
prune_keys now ((k, expiry) ∷ m) =
    let rest = prune_keys now m in
    if ltb expiry now then (rest.0, suc rest.1) else ((k, expiry) ∷ rest.0, rest.1)

unfoldable pub prune : Store → ℕ → Store × ℕ
unfolding prune_keys
prune s now = let r = prune_keys now s.keys in (record s { keys = r.0 }, r.1)
