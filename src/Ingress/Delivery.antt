-- ===== src/Ingress/Delivery.antt =====
-- What `Submit` does to the queues: their bounds, the place of an accepted event, and events that
-- come twice.
use heike.Prelude.{
  ℕ, ◌+◌, ◌<◌, ◌≤◌, String, ◌≡◌, refl, ap, ◌∙◌, inl, inr, Bool, true, false, Option, none, some,
  List, [], ◌∷◌, arith, leb, if◌then◌else◌, length, length-append, Unique, Bool-cases, if_holds,
}
use heike.Errors.{Err, Result, ok, err, sentinel, duplicate_event}
use heike.Idempotency
use heike.Idempotency.{seconds, check_and_mark}
use heike.Idempotency.Once
use heike.Idempotency.Once.{Before, taken_once}
use heike.Ingress.Event.{
  Event, generate_idempotency_key, Destination, to_pipeline, to_drop, to_command, unknown,
}
use heike.Ingress.Resolver.{SessionIndex, Surroundings, resolve_workspace, resolve_session}
use heike.Ingress.Queues.{
  Ingress, default_ttl, check_and_mark_key, enqueue, with_session, dispatch, submit,
}

abbrev pub Router : Type 0
Router = Event → Event × Destination

-- Neither queue holds more than its size.
pub record IsBounded (i : Ingress) : Type 0 where
  pub interactive : length i.interactive ≤ i.interactive_size
  pub background : length i.background ≤ i.background_size

enqueue-IsBounded :
    (i : Ingress) (c : Option Err) (e : Event) → IsBounded i → IsBounded (enqueue i c e).0
unfolding enqueue
enqueue-IsBounded i none e b =
    ground (arith, length-append i.interactive (e ∷ []), length-append i.background (e ∷ []))
enqueue-IsBounded i (some x) e b = ground (arith, length-append i.background (e ∷ []))

dispatch-IsBounded :
    (i : Ingress) (w : Surroundings) (c : Option Err) (r : Event × Destination)
    → IsBounded i
    → IsBounded (dispatch i w c r).0
unfolding dispatch
dispatch-IsBounded i w c (e, to_drop) b = b
dispatch-IsBounded i w c (e, to_command none) b = b
dispatch-IsBounded i w c (e, to_command (some h)) b = b
dispatch-IsBounded i w c (e, unknown) b = b
dispatch-IsBounded i w c (e, to_pipeline) b =
    resolved (resolve_session i.index w (record e { workspace_id = resolve_workspace e }))
  where
    resolved : (r : SessionIndex × Event × Result String) → IsBounded (with_session i c r).0
    resolved (index, e', err x) = record { interactive = b.interactive; background = b.background }
    resolved (index, e', ok s) =
        enqueue-IsBounded (record i { index = index }) c (record e' { session_id = s })
          (record { interactive = b.interactive; background = b.background })

-- No submission, accepted or not, brings a queue over its size.
pub submit-IsBounded :
    (router : Router) (i : Ingress) (w : Surroundings) (c : Option Err) (e : Option Event)
    → IsBounded i
    → IsBounded (submit router i w c e).0
unfolding submit
submit-IsBounded router i w c none b = b
submit-IsBounded router i w c (some e) b = elim (Bool-cases marked.1) [
  | inl old ↦ rw old (record { interactive = b.interactive; background = b.background })
  | inr new ↦ rw new (
      dispatch-IsBounded (record i { keys = marked.0 }) w c (router e)
        (record { interactive = b.interactive; background = b.background }))
]
  where
    marked : Idempotency.Store × Bool
    marked =
        check_and_mark_key i.keys w.now (generate_idempotency_key e.source e.id) i.idempotency_ttl

-- One submission with what it finds outside.
pub record Submission : Type 0 where
  pub surroundings : Surroundings
  pub cancelled : Option Err
  pub event : Option Event

unfoldable pub submit_all : Router → Ingress → List Submission → Ingress
submit_all router i [] = i
submit_all router i (s ∷ rest) =
    submit_all router (submit router i s.surroundings s.cancelled s.event).0 rest

-- A submission that finds the time before `limit`.
abbrev pub AllBefore : ℕ → List Submission → Type 0
AllBefore limit [] = Unit
AllBefore limit (s ∷ rest) = (s.surroundings.now < limit) × AllBefore limit rest

-- The duration that a key is kept for.
abbrev pub kept_for : Ingress → ℕ
kept_for i = if leb i.idempotency_ttl 0 then default_ttl else i.idempotency_ttl

record SameKeys (i j : Ingress) : Type 0 where
  keys : i.keys ≡ j.keys
  ttl : i.idempotency_ttl ≡ j.idempotency_ttl

SameKeys-enqueue : (i : Ingress) (c : Option Err) (e : Event) → SameKeys (enqueue i c e).0 i
unfolding enqueue
SameKeys-enqueue i none e = ground arith
SameKeys-enqueue i (some x) e = ground arith

SameKeys-dispatch :
    (i : Ingress) (w : Surroundings) (c : Option Err) (r : Event × Destination)
    → SameKeys (dispatch i w c r).0 i
unfolding dispatch
SameKeys-dispatch i w c (e, to_drop) = record { keys = refl; ttl = refl }
SameKeys-dispatch i w c (e, to_command none) = record { keys = refl; ttl = refl }
SameKeys-dispatch i w c (e, to_command (some h)) = record { keys = refl; ttl = refl }
SameKeys-dispatch i w c (e, unknown) = record { keys = refl; ttl = refl }
SameKeys-dispatch i w c (e, to_pipeline) =
    resolved (resolve_session i.index w (record e { workspace_id = resolve_workspace e }))
  where
    resolved : (r : SessionIndex × Event × Result String) → SameKeys (with_session i c r).0 i
    resolved (index, e', err x) = record { keys = refl; ttl = refl }
    resolved (index, e', ok s) =
        let same = SameKeys-enqueue (record i { index = index }) c (record e' { session_id = s }) in
        record { keys = same.keys; ttl = same.ttl }

submit-some :
    (router : Router) (i : Ingress) (w : Surroundings) (c : Option Err) (e : Event)
    → let marked =
        check_and_mark i.keys w.now (generate_idempotency_key e.source e.id) (kept_for i) in
      submit router i w c (some e) ≡ (
        if marked.1
        then (record i { keys = marked.0 }, some (sentinel duplicate_event))
        else dispatch (record i { keys = marked.0 }) w c (router e))
unfolding submit check_and_mark_key
submit-some router i w c e = refl

keys-submit :
    (router : Router) (i : Ingress) (w : Surroundings) (c : Option Err) (e : Event)
    → SameKeys (submit router i w c (some e)).0 (record i {
      keys = (check_and_mark i.keys w.now (generate_idempotency_key e.source e.id) (kept_for i)).0;
    })
keys-submit router i w c e = rw submit-some (
    if_holds (λ (r : Ingress × Option Err). SameKeys r.0 (record i { keys = marked.0 })) marked.1
      (λ _. record { keys = refl; ttl = refl })
      (λ _. SameKeys-dispatch (record i { keys = marked.0 }) w c (router e)))
  where
    marked : Idempotency.Store × Bool
    marked = check_and_mark i.keys w.now (generate_idempotency_key e.source e.id) (kept_for i)

-- The store of keys after submissions is that after calls made before `limit`.
record IsReached (i j : Ingress) (limit : ℕ) : Type 0 where
  calls : List Once.Call
  early : Before limit calls
  keys : j.keys ≡ Once.run i.keys calls
  ttl : j.idempotency_ttl ≡ i.idempotency_ttl

IsReached-submit :
    (router : Router) (i j : Ingress) (w : Surroundings) (c : Option Err) (o : Option Event)
    (limit : ℕ)
    → w.now < limit
    → IsReached (submit router i w c o).0 j limit
    → IsReached i j limit
unfolding submit Once.run Once.apply
IsReached-submit router i j w c none limit h r = record {
  calls = r.calls;
  early = r.early;
  keys = r.keys;
  ttl = r.ttl;
}
IsReached-submit router i j w c (some e) limit h r =
    let same = keys-submit router i w c e in
    record {
      calls = Once.mark w.now (generate_idempotency_key e.source e.id) (kept_for i) ∷ r.calls;
      early = (h, r.early);
      keys = r.keys ∙ ap (λ (k : Idempotency.Store). Once.run k r.calls) same.keys;
      ttl = r.ttl ∙ same.ttl;
    }

submit_all-IsReached :
    (router : Router) (i : Ingress) (subs : List Submission) (limit : ℕ)
    → AllBefore limit subs
    → IsReached i (submit_all router i subs) limit
unfolding submit_all Once.run
submit_all-IsReached router i [] limit h = record {
  calls = [];
  early = tt;
  keys = refl;
  ttl = refl;
}
submit_all-IsReached router i (s ∷ rest) limit h =
    IsReached-submit router i
      (submit_all router (submit router i s.surroundings s.cancelled s.event).0 rest) s.surroundings
      s.cancelled s.event limit h.0
      (submit_all-IsReached router (submit router i s.surroundings s.cancelled s.event).0 rest limit
        h.1)

refused :
    (router : Router) (i : Ingress) (w : Surroundings) (c : Option Err) (e : Event)
    → check_and_mark i.keys w.now (generate_idempotency_key e.source e.id) (kept_for i)
      ≡ (i.keys, true)
    → submit router i w c (some e) ≡ (i, some (sentinel duplicate_event))
refused router i w c e h = submit-some router i w c e ∙ rw h refl

-- An event whose key is new is taken at most once: until the key expires, every later submission
-- of an event with its source and id is refused as a duplicate and changes nothing, whatever
-- became of the first one and whatever is submitted between, all before that expiry.
pub submitted_once :
    (router : Router) (i : Ingress) (w w' : Surroundings) (c c' : Option Err) (e e' : Event)
    (subs : List Submission)
    → Unique i.keys.keys
    → (check_and_mark_key i.keys w.now (generate_idempotency_key e.source e.id) i.idempotency_ttl).1
      ≡ false
    → e'.source ≡ e.source
    → e'.id ≡ e.id
    → AllBefore (w.now + seconds (kept_for i)) subs
    → w'.now < w.now + seconds (kept_for i)
    → let i' = submit_all router (submit router i w c (some e)).0 subs in
      submit router i' w' c' (some e') ≡ (i', some (sentinel duplicate_event))
unfolding check_and_mark_key
submitted_once router i w w' c c' e e' subs u new source id before soon =
    refused router i' w' c' e' (
      rw source (
        rw id (
          rw reached (
            taken_once i.keys w.now w'.now (kept_for i) (kept_for i') key r.calls u new r.early
              soon))))
  where
    key : String
    key = generate_idempotency_key e.source e.id

    first : Ingress
    first = (submit router i w c (some e)).0

    i' : Ingress
    i' = submit_all router first subs

    r : IsReached first i' (w.now + seconds (kept_for i))
    r = submit_all-IsReached router first subs (w.now + seconds (kept_for i)) before

    reached : i'.keys ≡ Once.run (check_and_mark i.keys w.now key (kept_for i)).0 r.calls
    reached =
        r.keys
        ∙ ap (λ (k : Idempotency.Store). Once.run k r.calls) (keys-submit router i w c e).keys
