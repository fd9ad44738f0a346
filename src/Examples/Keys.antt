-- ===== src/Examples/Keys.antt =====
-- The idempotency store on concrete keys.
use heike.Prelude.{ℕ, ◌≡◌, refl, true, false, List, [], ◌∷◌, arith}
use heike.Idempotency.{Store, seconds, check_and_mark, prune}
use heike.Idempotency.Once.{Call, mark, clean, write, run, taken_once}

abbrev empty_store : Store
empty_store = record { keys = []; saved = [] }

abbrev full_store : Store
full_store = record { keys = ("cli:1", 40) ∷ ("cli:2", 90) ∷ []; saved = [] }

abbrev day : ℕ
day = 86400000000000

abbrev busy_day : List Call
busy_day = mark 101 "cli:2" day ∷ clean 5000 ∷ write 5000 false ∷ []

expired_key_pruned : (prune full_store 50).1 ≡ 1
unfolding prune
expired_key_pruned = refl

taken_once_example :
    let s = run (check_and_mark empty_store 100 "cli:1" day).0 busy_day in
    check_and_mark s 86499 "cli:1" 7 ≡ (s, true)
taken_once_example =
    taken_once empty_store 100 86499 day 7 "cli:1" busy_day tt (unfold check_and_mark in refl)
      (unfold seconds in omega arith) (unfold seconds in omega arith)
