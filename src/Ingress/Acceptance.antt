-- ===== src/Ingress/Acceptance.antt =====
-- Where an accepted event is, and that a worker takes it.
use Prim.Native.String.{◌++◌ as text_append}
use text.Mathlib.TextLemmas.{append-eq-nil_iff}
use heike.Prelude.{
  String, ◌≡◌, ◌≢◌, refl, false, Option, none, some, [], ◌∷◌, ◌++◌, arith, ◌==◌, eq_iff, differ,
  if◌then◌else◌, if_holds,
}
use heike.Errors.{Err}
use heike.Ingress.Event.{Event, generate_idempotency_key, to_pipeline}
use heike.Ingress.Resolver.{
  SessionIndex, Surroundings, resolve_workspace, resolve_session, choose_session, implied_session,
  ensure_source, ensure_session, or_error,
}
use heike.Ingress.Queues.{
  Ingress, check_and_mark_key, is_interactive, enqueue, enqueue_interactive, enqueue_background,
  with_session, dispatch, submit,
}
use heike.Ingress.Delivery.{Router}

prefixed : (s : String) → (text_append "sess_" s == "") ≡ false
prefixed s = ground (
  arith,
  eq_iff (text_append "sess_" s) "",
  append-eq-nil_iff {p = "sess_"} {q = s},
  differ "sess_" "" refl,
)

choose_session-named : (e : Event) (ulid : String) → ((choose_session e ulid).0 == "") ≡ false
unfolding choose_session
choose_session-named e ulid =
    if_holds (λ (c : String × String). (c.0 == "") ≡ false) (e.session_id == "")
      (λ h.
        if_holds (λ (t : String). (t == "") ≡ false) (implied_session e ulid == "")
          (λ q. prefixed ulid) (λ q. q))
      (λ h. h)

-- The event is the last one of its lane, and the other lane is as it was.
pub record IsLast (i j : Ingress) (e : Event) : Type 0 where
  pub interactive :
      j.interactive ≡ (if is_interactive e.kind then i.interactive ++ e ∷ [] else i.interactive)
  pub background :
      j.background ≡ (if is_interactive e.kind then i.background else i.background ++ e ∷ [])

enqueue-IsLast :
    (i : Ingress) (c : Option Err) (e : Event)
    → (enqueue i c e).1 ≡ none
    → IsLast i (enqueue i c e).0 e
unfolding enqueue enqueue_interactive enqueue_background
enqueue-IsLast i none e h = ground (arith, h)
enqueue-IsLast i (some x) e h = ground (arith, h)

-- An accepted event: the routed one with its workspace, its session and the source in its metadata.
pub record IsAccepted (i j : Ingress) (routed e : Event) : Type 0 where
  pub last : IsLast i j e
  pub id : e.id ≡ routed.id
  pub kind : e.kind ≡ routed.kind
  pub content : e.content ≡ routed.content
  pub has_session : e.session_id ≢ ""

ensure_source-kept :
    (e : Event)
    → ((ensure_source e).id ≡ e.id)
      × ((ensure_source e).kind ≡ e.kind)
      × ((ensure_source e).content ≡ e.content)
unfolding ensure_source
ensure_source-kept e = ground arith

with_session-IsAccepted :
    (i : Ingress) (c : Option Err) (index : SessionIndex) (e routed : Event) (failed : Option Err)
    (s : String)
    → (s == "") ≡ false
    → (e.id ≡ routed.id) × (e.kind ≡ routed.kind) × (e.content ≡ routed.content)
    → (with_session i c (index, e, or_error failed s)).1 ≡ none
    → (q : Event) × IsAccepted i (with_session i c (index, e, or_error failed s)).0 routed q
unfolding with_session
with_session-IsAccepted i c index e routed (some x) s named same h = ground (arith, h)
with_session-IsAccepted i c index e routed none s named same h =
    let q = record e { session_id = s } in
    let l = enqueue-IsLast (record i { index = index }) c q h in
    (
      q,
      record {
        last = record { interactive = l.interactive; background = l.background };
        id = same.0;
        kind = same.1;
        content = same.2;
        has_session = differ s "" named;
      },
    )

dispatch-IsAccepted :
    (i : Ingress) (w : Surroundings) (c : Option Err) (e : Event)
    → (dispatch i w c (e, to_pipeline)).1 ≡ none
    → (q : Event) × IsAccepted i (dispatch i w c (e, to_pipeline)).0 e q
unfolding dispatch resolve_session
dispatch-IsAccepted i w c e h =
    with_session-IsAccepted i c r.0 e' e r.1 (choose_session e' w.ulid).0
      (choose_session-named e' w.ulid)
      (ensure_source-kept (record e { workspace_id = resolve_workspace e })) h
  where
    e' : Event
    e' = ensure_source (record e { workspace_id = resolve_workspace e })

    r : SessionIndex × Option Err
    r =
        ensure_session i.index w (choose_session e' w.ulid).0 e'.metadata
          (choose_session e' w.ulid).1

-- An event with a new key that the router sends to the pipeline, and whose `Submit` returns no
-- error, stands last in the lane of its type with its id, type and content and a session that is
-- not empty, and the other lane is as it was.
pub submit-IsAccepted :
    (router : Router) (i : Ingress) (w : Surroundings) (c : Option Err) (e routed : Event)
    → (check_and_mark_key i.keys w.now (generate_idempotency_key e.source e.id) i.idempotency_ttl).1
      ≡ false
    → router e ≡ (routed, to_pipeline)
    → (submit router i w c (some e)).1 ≡ none
    → (q : Event) × IsAccepted i (submit router i w c (some e)).0 routed q
unfolding submit
submit-IsAccepted router i w c e routed new to h = rw new (
    rw to (
      let a = dispatch-IsAccepted marked w c routed (rw to at (rw new at h)) in
      (
        a.0,
        record {
          last = record { interactive = a.1.last.interactive; background = a.1.last.background };
          id = a.1.id;
          kind = a.1.kind;
          content = a.1.content;
          has_session = a.1.has_session;
        },
      )))
  where
    marked : Ingress
    marked = record i {
      keys =
          (check_and_mark_key i.keys w.now (generate_idempotency_key e.source e.id)
            i.idempotency_ttl).0;
    }
