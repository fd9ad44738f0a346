-- ===== src/Daemon/Setup.antt =====
-- A daemon to which its components were added.
use mathlib.Core.List.{append-nil, append_assoc}
use heike.Prelude.{String, ◌≡◌, refl, ap, sym, ◌∙◌, List, [], ◌∷◌, ◌++◌, arith}
use heike.Errors.{ok}
use heike.Daemon.Order.{Component, names}
use heike.Daemon.Lifecycle.{Daemon, new_daemon, add_component}
use heike.Daemon.Calls.{reversed}
use heike.Daemon.Initialising.{names-append}

-- The components are added one after the other.
abbrev pub add_all : Daemon → List Component → Daemon
add_all d [] = d
add_all d (c ∷ cs) = add_all (add_component d c) cs

-- A daemon before its start.
pub record IsReady (cs : List Component) (d : Daemon) : Type 0 where
  pub components : d.components ≡ cs
  pub shutdown_order : d.shutdown_order ≡ names (reversed cs)
  pub calls : d.calls ≡ []

add_all-components :
    (d : Daemon) (cs : List Component) → (add_all d cs).components ≡ d.components ++ cs
unfolding add_component
add_all-components d [] = sym (append-nil d.components)
add_all-components d (c ∷ cs) =
    add_all-components (add_component d c) cs ∙ append_assoc d.components (c ∷ []) cs

add_all-shutdown_order :
    (d : Daemon) (cs : List Component)
    → (add_all d cs).shutdown_order ≡ names (reversed cs) ++ d.shutdown_order
unfolding add_component
add_all-shutdown_order d [] = refl
add_all-shutdown_order d (c ∷ cs) =
    add_all-shutdown_order (add_component d c) cs
    ∙ sym (append_assoc (names (reversed cs)) (c.name ∷ []) d.shutdown_order)
    ∙ ap (λ (l : List String). l ++ d.shutdown_order) (sym (names-append (reversed cs) (c ∷ [])))

add_all-calls : (d : Daemon) (cs : List Component) → (add_all d cs).calls ≡ d.calls
unfolding add_component
add_all-calls d [] = refl
add_all-calls d (c ∷ cs) = add_all-calls (add_component d c) cs

pub add_all-IsReady :
    (workspace : String) (d : Daemon) (cs : List Component)
    → new_daemon workspace ≡ ok d
    → IsReady cs (add_all d cs)
unfolding new_daemon
add_all-IsReady workspace d cs h = record {
  components = add_all-components d cs ∙ ap (λ (l : List Component). l ++ cs) no_components;
  shutdown_order =
      add_all-shutdown_order d cs
      ∙ ap (λ (l : List String). names (reversed cs) ++ l) no_order
      ∙ append-nil (names (reversed cs));
  calls = add_all-calls d cs ∙ no_calls;
}
  where
    no_components : d.components ≡ []
    no_components = ground (arith, h)

    no_order : d.shutdown_order ≡ []
    no_order = ground (arith, h)

    no_calls : d.calls ≡ []
    no_calls = ground (arith, h)
