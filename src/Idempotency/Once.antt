-- ===== src/Idempotency/Once.antt =====
-- A key is taken once until it expires, and pruning is not seen.
use heike.Prelude.{
  ℕ, ◌+◌, ◌<◌, ◌≤◌, String, ◌≡◌, ◌↔◌, refl, ◌∙◌, inl, inr, Bool, true, false, Option, none, some,
  List, [], ◌∷◌, arith, eq_iff, eq_refl, ltb, if◌then◌else◌, Dict, lookup, delete, lookup-insert,
  lookup-delete, Unique, Unique-insert, Unique-delete, length, Bool-cases,
}
use heike.Idempotency.{Store, seconds, mark_found, check_and_mark, prune_keys, prune, save}

-- One call on the store, at its time.
pub data Call : Type 0 where
  mark : ℕ → String → ℕ → Call
  clean : ℕ → Call
  write : ℕ → Bool → Call

abbrev pub time : Call → ℕ
time (mark now key ttl) = now
time (clean now) = now
time (write now ok) = now

unfoldable pub apply : Store → Call → Store
apply s (mark now key ttl) = (check_and_mark s now key ttl).0
apply s (clean now) = (prune s now).0
apply s (write now ok) = save ok s

unfoldable pub run : Store → List Call → Store
run s [] = s
run s (c ∷ cs) = run (apply s c) cs

-- Every call is made before the time `limit`.
abbrev pub Before : ℕ → List Call → Type 0
Before limit [] = Unit
Before limit (c ∷ cs) = (time c < limit) × Before limit cs

-- What pruning leaves of an entry.
abbrev kept : ℕ → Option ℕ → Option ℕ
kept now none = none
kept now (some expiry) = if ltb expiry now then none else some expiry

lookup-prune_keys :
    (now : ℕ) (j : String) (m : Dict ℕ)
    → Unique m
    → lookup j (prune_keys now m).0 ≡ kept now (lookup j m)
unfolding lookup prune_keys
lookup-prune_keys now j [] u = refl
lookup-prune_keys now j ((k, expiry) ∷ m) u =
    ground (arith, lookup-prune_keys now j m u.1, eq_iff k j)

Unique-prune_keys : (now : ℕ) (m : Dict ℕ) → Unique m → Unique (prune_keys now m).0
unfolding prune_keys
Unique-prune_keys now [] u = tt
Unique-prune_keys now ((k, expiry) ∷ m) u = elim (Bool-cases (ltb expiry now)) [
  | inl old ↦ rw old (Unique-prune_keys now m u.1)
  | inr live ↦
      rw live (lookup-prune_keys now k m u.1 ∙ ground (arith, u.0), Unique-prune_keys now m u.1)
]

Unique-mark_found :
    (s : Store) (now : ℕ) (key : String) (ttl : ℕ) (found : Option ℕ)
    → Unique s.keys
    → Unique (mark_found s now key ttl found).0.keys
unfolding mark_found
Unique-mark_found s now key ttl none u = Unique-insert key (now + seconds ttl) s.keys u
Unique-mark_found s now key ttl (some expiry) u = elim (Bool-cases (ltb now expiry)) [
  | inl live ↦ rw live u
  | inr gone ↦
      rw gone
        (Unique-insert key (now + seconds ttl) (delete key s.keys) (Unique-delete key s.keys u))
]

Unique-check_and_mark :
    (s : Store) (now : ℕ) (key : String) (ttl : ℕ)
    → Unique s.keys
    → Unique (check_and_mark s now key ttl).0.keys
unfolding check_and_mark
Unique-check_and_mark s now key ttl u = Unique-mark_found s now key ttl (lookup key s.keys) u

Unique-apply : (s : Store) (c : Call) → Unique s.keys → Unique (apply s c).keys
unfolding apply prune save
Unique-apply s (mark now key ttl) u = Unique-check_and_mark s now key ttl u
Unique-apply s (clean now) u = Unique-prune_keys now s.keys u
Unique-apply s (write now true) u = u
Unique-apply s (write now false) u = u

live-apply :
    (s : Store) (c : Call) (key : String) (expiry : ℕ)
    → Unique s.keys
    → time c < expiry
    → lookup key s.keys ≡ some expiry
    → lookup key (apply s c).keys ≡ some expiry
unfolding apply check_and_mark prune save
live-apply s (mark now k ttl) key expiry u t h =
    grind (arith, lookup-insert, lookup-delete, eq_iff k key)
live-apply s (clean now) key expiry u t h = ground (arith, lookup-prune_keys now key s.keys u)
live-apply s (write now true) key expiry u t h = h
live-apply s (write now false) key expiry u t h = h

live-run :
    (s : Store) (cs : List Call) (key : String) (expiry : ℕ)
    → Unique s.keys
    → Before expiry cs
    → lookup key s.keys ≡ some expiry
    → lookup key (run s cs).keys ≡ some expiry
unfolding run
live-run s [] key expiry u before h = h
live-run s (c ∷ cs) key expiry u before h =
    live-run (apply s c) cs key expiry (Unique-apply s c u) before.1
      (live-apply s c key expiry u before.0 h)

marked :
    (s : Store) (now : ℕ) (key : String) (ttl : ℕ)
    → (check_and_mark s now key ttl).1 ≡ false
    → lookup key (check_and_mark s now key ttl).0.keys ≡ some (now + seconds ttl)
unfolding check_and_mark
marked s now key ttl h = grind (arith, lookup-insert, eq_refl key)

-- Once a key was taken as new, every check of it before it expires finds it again and changes
-- nothing, whatever marks, prunes and saves are made between, all before that expiry.
pub taken_once :
    (s : Store) (now later ttl ttl' : ℕ) (key : String) (cs : List Call)
    → Unique s.keys
    → (check_and_mark s now key ttl).1 ≡ false
    → Before (now + seconds ttl) cs
    → later < now + seconds ttl
    → let s' = run (check_and_mark s now key ttl).0 cs in
      check_and_mark s' later key ttl' ≡ (s', true)
taken_once s now later ttl ttl' key cs u new before soon =
    still (run (check_and_mark s now key ttl).0 cs) later key ttl' (now + seconds ttl) soon (
      live-run (check_and_mark s now key ttl).0 cs key (now + seconds ttl)
        (Unique-check_and_mark s now key ttl u) before (marked s now key ttl new))
  where
    still :
        (t : Store) (at : ℕ) (k : String) (d expiry : ℕ)
        → at < expiry
        → lookup k t.keys ≡ some expiry
        → check_and_mark t at k d ≡ (t, true)
    still t at k d expiry soon h = unfold check_and_mark in ground arith

-- Pruning is not seen: a check at that time or later gives the same answer, and leaves the same
-- entry for every key that has not expired.
pub prune_unseen :
    (s : Store) (now later ttl : ℕ) (key : String)
    → Unique s.keys
    → now ≤ later
    → (check_and_mark (prune s now).0 later key ttl).1 ≡ (check_and_mark s later key ttl).1
unfolding check_and_mark prune
prune_unseen s now later ttl key u h = ground (arith, lookup-prune_keys now key s.keys u)

-- `Prune` counts the keys that it deletes, and keeps exactly the entries that have not expired.
pub prune_exact :
    (s : Store) (now : ℕ)
    → Unique s.keys
    → (length (prune s now).0.keys + (prune s now).1 ≡ length s.keys)
      × ((key : String) (expiry : ℕ)
          → (lookup key (prune s now).0.keys ≡ some expiry)
            ↔ ((lookup key s.keys ≡ some expiry) × (now ≤ expiry)))
unfolding prune
prune_exact s now u = (
  counted s.keys,
  λ key expiry. (
    λ h. ground (arith, lookup-prune_keys now key s.keys u),
    λ h. ground (arith, lookup-prune_keys now key s.keys u),
  ),
)
  where
    counted : (m : Dict ℕ) → length (prune_keys now m).0 + (prune_keys now m).1 ≡ length m
    counted [] = omega arith
    counted ((k, e) ∷ m) = unfold prune_keys in ground (arith, counted m)
