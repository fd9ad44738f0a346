-- ===== src/Egress/Routing.antt =====
-- Where a response goes.
use heike.Prelude.{
  String, ◌≡◌, ◌≢◌, ◌↔◌, refl, inl, inr, Option, none, some, List, [], ◌∷◌, lookup, lookup-insert,
  lookup-delete, lookup-nil, eq_iff, arith, All, Option-cases,
}
use heike.Errors.{Result, ok, err, wrap}
use heike.Ingress.Resolver.{SessionMeta}
use heike.Egress.{
  OutputAdapter, DefaultEgress, register, unregister, get_adapter, deliver, with_source, send,
  unhealthy, health,
}

pub data Change : Type 0 where
  add : Option OutputAdapter → Change
  remove : String → Change

unfoldable pub changed : DefaultEgress → List Change → DefaultEgress
changed e [] = e
changed e (add a ∷ cs) = changed (register e a).0 cs
changed e (remove n ∷ cs) = changed (unregister e n).0 cs

-- Every adapter stands under its own name, which is not empty.
abbrev pub IsNamed : DefaultEgress → Type 0
IsNamed e =
    (name : String) (a : OutputAdapter) → lookup name e ≡ some a → (a.name ≡ name) × (name ≢ "")

IsNamed-register :
    (e : DefaultEgress) (a : Option OutputAdapter) → IsNamed e → IsNamed (register e a).0
unfolding register
IsNamed-register e none n = n
IsNamed-register e (some a) n =
    λ name b h. grind (arith, lookup-insert, eq_iff a.name name, eq_iff a.name "", n name b)

IsNamed-unregister : (e : DefaultEgress) (k : String) → IsNamed e → IsNamed (unregister e k).0
unfolding unregister
IsNamed-unregister e k n =
    λ name b h. grind (arith, lookup-delete, lookup-nil, eq_iff k name, n name b)

IsNamed-changed : (e : DefaultEgress) (cs : List Change) → IsNamed e → IsNamed (changed e cs)
unfolding changed
IsNamed-changed e [] n = n
IsNamed-changed e (add a ∷ cs) n = IsNamed-changed (register e a).0 cs (IsNamed-register e a n)
IsNamed-changed e (remove k ∷ cs) n =
    IsNamed-changed (unregister e k).0 cs (IsNamed-unregister e k n)

-- The source that a session names.
abbrev pub source_of : Result (Option SessionMeta) → Option String
source_of (err x) = none
source_of (ok none) = none
source_of (ok (some m)) = lookup "source" m.metadata

-- The adapter under a source.
abbrev pub target : DefaultEgress → Option String → Option OutputAdapter
target e none = none
target e (some source) = lookup source e

abbrev pub IsRouted :
    DefaultEgress → Result (Option SessionMeta) → String → String → Option OutputAdapter → Type 0
IsRouted e found session content none =
    ((send e found session content).0 ≡ []) × ((send e found session content).1 ≢ none)
IsRouted e found session content (some a) =
    (source_of found ≡ some a.name)
    × (send e found session content ≡ (
      record { adapter = a.name; session = session; content = content } ∷ [],
      wrap (a.send session content) "failed to send response",
    ))

routed_source :
    (e : DefaultEgress) (session content : String) (source : Option String)
    (t : Option OutputAdapter)
    → IsNamed e
    → target e source ≡ t
    → elim t as (λ x. Type 0) [
      | none ↦
          ((with_source e session content source).0 ≡ [])
          × ((with_source e session content source).1 ≢ none)
      | some a ↦
          (source ≡ some a.name)
          × (with_source e session content source ≡ (
            record { adapter = a.name; session = session; content = content } ∷ [],
            wrap (a.send session content) "failed to send response",
          ))
    ]
unfolding with_source get_adapter deliver
routed_source e session content none none n h = (refl, λ q. ground (arith, q))
routed_source e session content none (some a) n h = ground (arith, h)
routed_source e session content (some source) none n h =
    (ground (arith, h), λ q. ground (arith, h, q))
routed_source e session content (some source) (some a) n h =
    let named = n source a h in (rw named.0 refl, ground (arith, h, eq_iff source "", named.1))

IsRouted-meta :
    (e : DefaultEgress) (session content : String) (m : SessionMeta) (t : Option OutputAdapter)
    → IsNamed e
    → target e (lookup "source" m.metadata) ≡ t
    → IsRouted e (ok (some m)) session content t
unfolding send
IsRouted-meta e session content m none n h =
    routed_source e session content (lookup "source" m.metadata) none n h
IsRouted-meta e session content m (some a) n h =
    routed_source e session content (lookup "source" m.metadata) (some a) n h

-- After any registrations and removals, `Send` hands the content once to the adapter registered
-- under the source that the session names, and its answer is that adapter's; when the session is
-- not found or names no registered adapter, no adapter is called and an error is returned.
pub send-IsRouted :
    (cs : List Change) (found : Result (Option SessionMeta)) (session content : String)
    → let e = changed [] cs in IsRouted e found session content (target e (source_of found))
send-IsRouted cs found session content = by_source found
  where
    e : DefaultEgress
    e = changed [] cs

    n : IsNamed e
    n = IsNamed-changed [] cs (λ name b h. ground (arith, h, lookup-nil {V = OutputAdapter} name))

    by_source :
        (r : Result (Option SessionMeta)) → IsRouted e r session content (target e (source_of r))
    by_source (err x) = unfold send in (refl, λ q. ground (arith, q))
    by_source (ok none) = unfold send in (refl, λ q. ground (arith, q))
    by_source (ok (some m)) =
        IsRouted-meta e session content m (target e (lookup "source" m.metadata)) n refl

abbrev pub IsHealthy : String × OutputAdapter → Type 0
IsHealthy x = x.1.health ≡ none

All-IsHealthy : (e : DefaultEgress) → unhealthy e ≡ [] → All IsHealthy e
unfolding unhealthy
All-IsHealthy [] h = tt
All-IsHealthy ((name, a) ∷ e) h = elim (Option-cases a.health) [
  | inl well ↦ (well, All-IsHealthy e (ground (arith, h, well)))
  | inr ill ↦ ground (arith, h, ill.1)
]

none_unhealthy : (e : DefaultEgress) → All IsHealthy e → unhealthy e ≡ []
unfolding unhealthy
none_unhealthy [] h = refl
none_unhealthy ((name, a) ∷ e) h = rw h.0 (none_unhealthy e h.1)

-- `Health` answers that all is well exactly when there is an adapter and every one is healthy.
pub health-none_iff : (e : DefaultEgress) → (health e ≡ none) ↔ ((e ≢ []) × All IsHealthy e)
unfolding health
health-none_iff [] = (λ h. ground (arith, h), λ h. ground (arith, h.0 refl))
health-none_iff (a ∷ e) = (
  λ h. (λ q. ground (arith, q), All-IsHealthy (a ∷ e) (ground (arith, h))),
  λ h. rw (none_unhealthy (a ∷ e) h.1, health) refl,
)
