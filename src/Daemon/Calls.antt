-- ===== src/Daemon/Calls.antt =====
-- Which calls the loops of the daemon make.
use mathlib.Core.Path.{subst}
use mathlib.Core.List.{append-nil, append_assoc}
use heike.Prelude.{
  ◌≡◌, refl, ap, sym, ◌∙◌, Option, none, some, List, [], ◌∷◌, ◌++◌, map, arith, All,
}
use heike.Errors.{Err}
use heike.Daemon.Order.{Component, names, get_component_by_name}
use heike.Daemon.Lifecycle.{
  Call, init, start, stop, Daemon, Env, called, because, then_on, init_one, init_each,
  start_components, stop_found, stop_each, rollback_each,
}

-- The state with more calls.
abbrev pub after_calls : Daemon → List Call → Daemon
after_calls d cs = record d { calls = d.calls ++ cs }

pub after_calls-nil : (d : Daemon) → after_calls d [] ≡ d
after_calls-nil d = ap (λ (l : List Call). record d { calls = l }) (append-nil d.calls)

after_calls-cons :
    (d : Daemon) (c : Call) (cs : List Call) → after_calls (called c d) cs ≡ after_calls d (c ∷ cs)
after_calls-cons d c cs =
    ap (λ (l : List Call). record d { calls = l }) (append_assoc d.calls (c ∷ []) cs)

-- What a loop over calls that stops at an error has made of the list it goes over.
pub record IsPrefix (make : Component → Call) (d : Daemon) (all : List Component)
    (out : Daemon × Option Err) : Type 0 where
  pub done : List Component
  pub rest : List Component
  pub parts : all ≡ done ++ rest
  pub calls : out.0 ≡ after_calls d (map make done)
  pub complete : out.1 ≡ none → rest ≡ []

IsPrefix-cons :
    (make : Component → Call) (d : Daemon) (c : Component) (cs : List Component)
    (out : Daemon × Option Err)
    → IsPrefix make (called (make c) d) cs out
    → IsPrefix make d (c ∷ cs) out
IsPrefix-cons make d c cs out p = record {
  done = c ∷ p.done;
  rest = p.rest;
  parts = ap (λ (l : List Component). c ∷ l) p.parts;
  calls = p.calls ∙ after_calls-cons d (make c) (map make p.done);
  complete = p.complete;
}

IsPrefix-failed :
    (make : Component → Call) (d : Daemon) (c : Component) (cs : List Component) (e : Err)
    → IsPrefix make d (c ∷ cs) (called (make c) d, some e)
IsPrefix-failed make d c cs e = record {
  done = c ∷ [];
  rest = cs;
  parts = refl;
  calls = refl;
  complete = λ h. ground (arith, h);
}

IsPrefix-nil : (make : Component → Call) (d : Daemon) → IsPrefix make d [] (d, none)
IsPrefix-nil make d = record {
  done = [];
  rest = [];
  parts = refl;
  calls = sym (after_calls-nil d);
  complete = λ h. refl;
}

-- One step of such a loop.
IsPrefix-then_on :
    (make : Component → Call) (d : Daemon) (c : Component) (cs : List Component) (o : Option Err)
    (k : Daemon → Daemon × Option Err)
    → ((d' : Daemon) → d' ≡ called (make c) d → IsPrefix make d' cs (k d'))
    → IsPrefix make d (c ∷ cs) (then_on (called (make c) d, o) k)
IsPrefix-then_on make d c cs none k p = IsPrefix-cons make d c cs _ (p (called (make c) d) refl)
IsPrefix-then_on make d c cs (some e) k p = IsPrefix-failed make d c cs e

pub start_components-IsPrefix :
    (env : Env) (d : Daemon) (cs : List Component) → IsPrefix start d cs (start_components env d cs)
unfolding start_components
start_components-IsPrefix env d [] = IsPrefix-nil start d
start_components-IsPrefix env d (c ∷ cs) =
    IsPrefix-then_on start d c cs
      (because "component %s startup failed: %w" (c.name ∷ []) (env.answer d.calls (start c)))
      (λ d'. start_components env d' cs) (λ d' h. start_components-IsPrefix env d' cs)

-- Every component is the one that its name finds.
abbrev pub Finds : List Component → List Component → Type 0
Finds cs xs = All (λ (c : Component). get_component_by_name cs c.name ≡ some c) xs

pub init_each-IsPrefix :
    (env : Env) (d : Daemon) (cs xs : List Component)
    → d.components ≡ cs
    → Finds cs xs
    → IsPrefix init d xs (init_each env d (names xs))
unfolding init_each
init_each-IsPrefix env d cs [] h f = IsPrefix-nil init d
init_each-IsPrefix env d cs (c ∷ xs) h f =
    subst
      (λ (o : Option Component).
        IsPrefix init d (c ∷ xs) (then_on (init_one env d o) (λ d'. init_each env d' (names xs))))
      (sym (ap (λ (l : List Component). get_component_by_name l c.name) h ∙ f.0))
      (IsPrefix-then_on init d c xs
        (because "component %s init failed: %w" (c.name ∷ []) (env.answer d.calls (init c)))
        (λ d'. init_each env d' (names xs))
        (λ d' e. init_each-IsPrefix env d' cs xs (ap (λ (q : Daemon). q.components) e ∙ h) f.1))

pub stop_each-after_calls :
    (d : Daemon) (cs xs : List Component)
    → d.components ≡ cs
    → Finds cs xs
    → stop_each d (names xs) ≡ after_calls d (map stop xs)
unfolding stop_each
stop_each-after_calls d cs [] h f = sym (after_calls-nil d)
stop_each-after_calls d cs (c ∷ xs) h f =
    ap (λ (o : Option Component). stop_each (stop_found o d) (names xs))
      (ap (λ (l : List Component). get_component_by_name l c.name) h ∙ f.0)
    ∙ stop_each-after_calls (called (stop c) d) cs xs h f.1
    ∙ after_calls-cons d (stop c) (map stop xs)

abbrev pub reversed : List Component → List Component
reversed [] = []
reversed (c ∷ cs) = reversed cs ++ c ∷ []

map-append :
    (f : Component → Call) (xs ys : List Component) → map f (xs ++ ys) ≡ map f xs ++ map f ys
map-append f [] ys = refl
map-append f (x ∷ xs) ys = ap (λ (l : List Call). f x ∷ l) (map-append f xs ys)

pub rollback_each-after_calls :
    (d : Daemon) (cs : List Component) → rollback_each d cs ≡ after_calls d (map stop (reversed cs))
unfolding rollback_each
rollback_each-after_calls d [] = sym (after_calls-nil d)
rollback_each-after_calls d (c ∷ cs) =
    ap (called (stop c)) (rollback_each-after_calls d cs)
    ∙ ap (λ (l : List Call). record d { calls = l })
        (append_assoc d.calls (map stop (reversed cs)) (stop c ∷ [])
          ∙ ap (λ (l : List Call). d.calls ++ l) (sym (map-append stop (reversed cs) (c ∷ []))))
