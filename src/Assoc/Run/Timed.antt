-- ===== src/Assoc/Run/Timed.antt =====
-- Every wait of the association machine (Module/assoc.c) is timed, and ends,
-- unless the message of its timer is lost.
use rt.Prelude.{ℕ, ◌+◌, ◌<◌, ◌≡◌, List, [], ◌∷◌, ◌==◌, if◌then◌else◌}
use rt.Assoc.Request.{AssocConfig}
use rt.Assoc.State.{AssocState, AssocEffect}
use rt.Assoc.Run.{AssocMsg, Meets, AssocWorld, AssocReach}
use rt.Assoc.Run.Settled.{conf_kind, times_out, timer_of}

-- How many of the messages say that a wait is over.
timeouts : ℕ → List AssocMsg → ℕ
timeouts n [] = 0
timeouts n (m ∷ ms) = (if times_out m == n then 1 else 0) + timeouts n ms

abbrev armed_by : AssocState → List AssocMsg → ℕ
armed_by a ms = (if timer_of a then 1 else 0) + timeouts a.machine_state ms

-- The state is one of four, and a wait has its timer set or its message waiting, unless a timer's
-- message was lost.
record IsTimed (lost : ℕ) (a : AssocState) (ms : List AssocMsg) : Type 0 where
  small : a.machine_state < 4
  armed : 0 < a.machine_state → 0 < armed_by a ms + lost

module _ (cfg : AssocConfig) (e : Meets) (w : AssocWorld) where
  -- The world at the end of the wait, where one confirmation was given.
  abbrev pub Ended : Type 0
  Ended =
      (u : AssocWorld) × (effect : AssocEffect) × AssocReach cfg w u
      × (u.machine.machine_state ≡ 0)
      × (u.done ≡ effect ∷ w.done)
      × (conf_kind effect ≡ w.machine.machine_state)
