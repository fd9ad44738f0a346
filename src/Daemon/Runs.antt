-- ===== src/Daemon/Runs.antt =====
-- The calls of a whole run of the daemon.
use heike.Prelude.{
  Bool, true, false, ◌||◌, String, ◌≡◌, ◌⊎◌, Option, none, some, List, [], ◌++◌, map, mem,
  IsDistinct, ℕ, take,
}
use heike.Errors.{Err}
use heike.Daemon.Order.{Component, names}
use heike.Daemon.Ordering.{IsAfter}
use heike.Daemon.Lifecycle.{stopped, init, start, stop, Daemon, Env}
use heike.Daemon.Calls.{reversed}

abbrev pub is_error : Option Err → Bool
is_error none = false
is_error (some e) = true

-- A timeout of a shutdown does not parse.
abbrev pub no_timeout : Env → Bool
no_timeout env = is_error env.startup_timeout || is_error env.shutdown_timeout

-- The wait for a shutdown ended when it was through with `n` names.
abbrev pub IsCut : Env → ℕ → Type 0
IsCut env n = (env.startup_cut ≡ some n) ⊎ (env.shutdown_cut ≡ some n)

-- What a run calls: components are initialised, each once and after those it depends on; then they
-- are started in the order in which they were added, if every one was initialised; then each one is
-- stopped, in the reverse order, and the daemon's health is that of a stopped one. Nothing is stopped
-- if nothing was called, or a timeout of a shutdown does not parse; and the first `n` in the reverse
-- order are, if the wait for the shutdown ended then.
pub record IsLifecycle (env : Env) (cs : List Component) (d : Daemon) : Type 0 where
  pub initialised : List Component
  pub started : List Component
  pub unstarted : List Component
  pub halted : List Component
  pub calls : d.calls ≡ map init initialised ++ (map start started ++ map stop halted)
  pub once : IsDistinct (names initialised)
  pub ordered : IsAfter cs [] (names initialised)
  pub in_order : cs ≡ started ++ unstarted
  pub initialised_first :
      (started ≡ []) ⊎ ((x : String) → mem x (names initialised) ≡ mem x (names cs))
  pub halted_all :
      ((halted ≡ reversed cs) × (d.health ≡ stopped))
      ⊎ ((halted ≡ []) × ((d.calls ≡ []) ⊎ (no_timeout env ≡ true)))
      ⊎ ((n : ℕ) × IsCut env n × (halted ≡ take n (reversed cs)))

module _ (env : Env) (cs : List Component) (once : IsDistinct (names cs)) where
  -- The end of a run: nothing more is called, every component is stopped, or the first ones are.
  record IsEnded (d d' : Daemon) : Type 0 where
    halted : List Component
    calls : d'.calls ≡ d.calls ++ map stop halted
    all :
        ((halted ≡ reversed cs) × (d'.health ≡ stopped))
        ⊎ ((halted ≡ []) × (no_timeout env ≡ true))
        ⊎ ((n : ℕ) × IsCut env n × (halted ≡ take n (reversed cs)))
