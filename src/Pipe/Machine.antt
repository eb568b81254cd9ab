-- ===== src/Pipe/Machine.antt =====
-- pipe/state.go: the goroutine `loop` of a pipe, which owns the pipe's state, and the methods that
-- send it events. Here are the data that they share and the error channels that are handed to
-- callers; Transition has the states' methods, and Loop puts them together.
use phono.Base.{
  ℕ, Bool, true, false, List, [], ◌∷◌, ◌++◌, Option, none, some, String, length, get_elem?, set,
  ltb, if◌then◌else◌,
}
use phono.Base.Outcome.{Outcome, done, panic, blocked, ◌>>=◌}
use phono.Pipe.Params.{World, Params}
use phono.Pipe.Message.{Message, Signal, unset, live, fired, Pipe}

pub data State : Type 0 where
  ready running pausing paused : State

-- `event`
pub data Event : Type 0 where
  run pause resume push measure cancel : Event

-- `ErrInvalidState`, or an error of a component.
pub data Error : Type 0 where
  invalid_state : Error
  component : ℕ → Error

-- A target's channel is the number of a channel in the machine's list; `none` is nil.
pub record Target : Type 0 where
  pub state : Option State
  pub errc : Option ℕ

pub record EventMessage (C : Type 0) : Type 0 where
  pub event : Event
  pub params : Params C
  pub components : List String
  pub target : Target

-- An error channel, of capacity 1: what was sent on it, and whether it is closed. What its owner
-- receives is not taken out: the machine never waits for that.
pub record ErrChan : Type 0 where
  pub sent : List Error
  pub is_closed : Bool

pub record Machine (A C : Type 0) : Type 0 where
  pub pipe : Pipe C
  pub state : Option State
  pub target : Target
  pub errcs : List ErrChan
  pub world : World C
  pub emitted : List (Message A C)  -- sent on `p.consume`, latest first
  pub unread : List ErrChan  -- of calls that are in the buffer of `p.events` when the loop ends

abbrev pub same : State → State → Bool
same ready ready = true
same running running = true
same pausing pausing = true
same paused paused = true
same _ _ = false

abbrev pub is_idle : State → Bool
is_idle ready = true
is_idle paused = true
is_idle _ = false

-- `make(chan error, 1)`
abbrev pub new_chan : ErrChan
new_chan = record { sent = []; is_closed = false }

-- `c <- err`: a panic on a closed channel; with the buffer full it waits for a receiver.
unfoldable pub send : List ErrChan → ℕ → Error → Outcome (List ErrChan)
send errcs n err = elim (get_elem? errcs n) [
  | none ↦ blocked
  | some c ↦
      if c.is_closed
      then panic
      else (if ltb (length c.sent) 1
          then done (set errcs n (record c { sent = c.sent ++ err ∷ [] }))
          else blocked)
]

-- `close(c)`: a panic if it is closed already.
unfoldable pub close_chan : List ErrChan → ℕ → Outcome (List ErrChan)
close_chan errcs n = elim (get_elem? errcs n) [
  | none ↦ panic
  | some c ↦ if c.is_closed then panic else done (set errcs n (record c { is_closed = true }))
]

-- `Wait`: the first error among what is received until the channel is closed.
unfoldable pub wait : List (Option Error) → Option Error
wait [] = none
wait (none ∷ d) = wait d
wait (some err ∷ d) = some err

-- `interrupt`
unfoldable pub interrupt : Signal → Outcome Signal
interrupt live = done fired
interrupt unset = panic
interrupt fired = panic

-- `hasTarget`
abbrev pub has_target : Target → Bool
has_target t = elim t.errc [ none ↦ false | some n ↦ true ]

-- `dismiss`
unfoldable pub dismiss : Target → List ErrChan → Outcome (Target × List ErrChan)
unfolding close_chan
dismiss t errcs = elim t.errc [
  | none ↦ done (t, errcs)
  | some n ↦ (do errcs' ← close_chan errcs n; done (record { state = none; errc = none }, errcs'))
]

-- `handle`
unfoldable pub handle : Target → Error → List ErrChan → Outcome (List ErrChan)
unfolding send
handle t err errcs = elim t.errc [ none ↦ panic | some n ↦ send errcs n err ]
