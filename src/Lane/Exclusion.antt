-- ===== src/Lane/Exclusion.antt =====
-- Two workers never run the orchestrator for one session at once.
use heike.Prelude.{
  ℕ, String, ◌≡◌, ◌≢◌, refl, ◌∙◌, inl, inr, Bool, true, false, some, ◌==◌, arith, eq_iff,
  if◌then◌else◌, lookup, insert, lookup-insert, lookup-nil, Bool-cases, Option-cases, ◌⊎◌,
}
use heike.Ingress.Event.{Event}
use heike.Lane.{
  LockManager, find_lock, take_lock, unlock, Stage, waiting_for_event, at_lock, executing, Lanes,
  move, Step, take_event, get_lock, finish, Reachable, idle, next,
}

-- Every session that is executed has its mutex locked, and by one worker only.
record IsExclusive (l : Lanes) : Type 0 where
  locked : (w : ℕ) (e : Event) → l.stages w ≡ executing e → lookup e.session_id l.locks ≡ some true
  alone :
      (w v : ℕ) (e f : Event)
      → l.stages w ≡ executing e
      → l.stages v ≡ executing f
      → e.session_id ≡ f.session_id
      → w ≡ v

lookup-take_lock :
    (m m' : LockManager) (s t : String)
    → take_lock m s ≡ some m'
    → (lookup t m' ≡ (if s == t then some true else lookup t m)) × (lookup s m ≢ some true)
unfolding take_lock
lookup-take_lock m m' s t h = (grind (arith, lookup-insert), λ q. ground (arith, q, h))

lookup-unlock : (m : LockManager) (s t : String) → s ≢ t → lookup t (unlock m s) ≡ lookup t m
unfolding unlock
lookup-unlock m s t h = grind (arith, lookup-insert, eq_iff s t)

lookup-find_lock :
    (m : LockManager) (s t : String) → lookup t m ≡ some true → lookup t (find_lock m s) ≡ some true
unfolding find_lock
lookup-find_lock m s t h = grind (arith, lookup-insert, eq_iff s t)

IsExclusive-step : (l l' : Lanes) → Step l l' → IsExclusive l → IsExclusive l'
IsExclusive-step _ _ (take_event l w e p valid) x = record {
  locked =
      λ v f q. lookup-find_lock l.locks e.session_id f.session_id (ground (arith, x.locked v f));
  alone = λ u v f g p q s. ground (arith, x.alone u v f g);
}
IsExclusive-step _ _ (get_lock l w e m p got) x = record {
  locked = λ v f q. ground (
    arith,
    x.locked v f,
    (lookup-take_lock l.locks m e.session_id f.session_id got).0,
    eq_iff e.session_id f.session_id,
  );
  alone = λ u v f g p q s. ground (
    arith,
    x.alone u v f g,
    x.locked u f,
    x.locked v g,
    (lookup-take_lock l.locks m e.session_id e.session_id got).1,
  );
}
IsExclusive-step _ _ (finish l w e p) x = record {
  locked = λ v f q.
      lookup-unlock l.locks e.session_id f.session_id
        (λ same. ground (arith, x.alone w v e f, same))
      ∙ ground (arith, x.locked v f);
  alone = λ u v f g p q s. ground (arith, x.alone u v f g);
}

IsExclusive-Reachable : (l : Lanes) → Reachable l → IsExclusive l
IsExclusive-Reachable _ idle = record {
  locked = λ w e q. ground (arith, q);
  alone = λ w v e f p q s. ground (arith, p);
}
IsExclusive-Reachable _ (next l l' r step) = IsExclusive-step l l' step (IsExclusive-Reachable l r)

-- In whatever order the workers take events, get locks and finish, two different workers that
-- execute events at the same time execute events of different sessions.
pub sessions_exclusive :
    (l : Lanes) (w v : ℕ) (e f : Event)
    → Reachable l
    → w ≢ v
    → l.stages w ≡ executing e
    → l.stages v ≡ executing f
    → e.session_id ≢ f.session_id
sessions_exclusive l w v e f r other p q =
    λ s. other ((IsExclusive-Reachable l r).alone w v e f p q s)

-- A worker executes an event of the session.
abbrev pub IsExecuted : Lanes → String → Type 0
IsExecuted l s = (v : ℕ) × (f : Event) × (l.stages v ≡ executing f) × (f.session_id ≡ s)

IsExecuted-other :
    (l : Lanes) (w : ℕ) (p : Stage) (m : LockManager) (s : String)
    → ((e : Event) → l.stages w ≡ executing e → e.session_id ≢ s)
    → IsExecuted l s
    → IsExecuted (record { locks = m; stages = move l.stages w p }) s
IsExecuted-other l w p m s other (v, f, q, same) = (v, f, ground (arith, other f, q, same), same)

lookup-find_lock-back :
    (m : LockManager) (s t : String) → lookup t (find_lock m s) ≡ some true → lookup t m ≡ some true
unfolding find_lock
lookup-find_lock-back m s t h = grind (arith, lookup-insert, eq_iff s t)

lookup-unlock-back :
    (m : LockManager) (s t : String)
    → lookup t (unlock m s) ≡ some true
    → (s ≢ t) × (lookup t m ≡ some true)
unfolding unlock
lookup-unlock-back m s t h =
    (λ q. grind (arith, lookup-insert, eq_iff s t), grind (arith, lookup-insert, eq_iff s t))

-- A locked mutex is the lock of an event that a worker executes.
IsHeld : Lanes → Type 0
IsHeld l = (s : String) → lookup s l.locks ≡ some true → IsExecuted l s

IsHeld-step : (l l' : Lanes) → Step l l' → IsHeld l → IsHeld l'
unfolding IsHeld
IsHeld-step _ _ (take_event l w e p valid) x = λ s h.
    IsExecuted-other l w (at_lock e) (find_lock l.locks e.session_id) s
      (λ f q. ground (arith, p, q)) (x s (lookup-find_lock-back l.locks e.session_id s h))
IsHeld-step _ _ (get_lock l w e m p got) x = λ s h. elim (Bool-cases (e.session_id == s)) [
  | inl same ↦ (w, e, ground arith, (eq_iff e.session_id s).0 same)
  | inr other ↦
      IsExecuted-other l w (executing e) m s (λ f q. ground (arith, p, q))
        (x s (ground (arith, h, other, (lookup-take_lock l.locks m e.session_id s got).0)))
]
IsHeld-step _ _ (finish l w e p) x = λ s h.
    let back = lookup-unlock-back l.locks e.session_id s h in
    IsExecuted-other l w waiting_for_event (unlock l.locks e.session_id) s
      (λ f q. ground (arith, p, q, back.0)) (x s back.1)

IsHeld-Reachable : (l : Lanes) → Reachable l → IsHeld l
unfolding IsHeld
IsHeld-Reachable _ idle = λ s h. ground (arith, h, lookup-nil {V = Bool} s)
IsHeld-Reachable _ (next l l' r step) = IsHeld-step l l' step (IsHeld-Reachable l r)

-- No session's lock is ever left locked: a worker that waits for a lock can take it now, or another
-- worker executes an event of that session, which it finishes by giving the lock back.
pub lock_available :
    (l : Lanes) (w : ℕ) (e : Event)
    → Reachable l
    → l.stages w ≡ at_lock e
    → ((m : LockManager) × (take_lock l.locks e.session_id ≡ some m)) ⊎ IsExecuted l e.session_id
unfolding take_lock IsHeld
lock_available l w e r p = elim (Option-cases (lookup e.session_id l.locks)) [
  | inl free ↦ inl (insert e.session_id true l.locks, rw free refl)
  | inr (true, h) ↦ inr (IsHeld-Reachable l r e.session_id h)
  | inr (false, h) ↦ inl (insert e.session_id true l.locks, rw h refl)
]
