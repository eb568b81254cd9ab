-- ===== src/Pipe/Loop.antt =====
-- pipe/state.go: `loop`, `idle` and `active`, as a machine. `step` is one round of the `select`
-- that the goroutine waits in, with what it receives as the input; `none` as a state is the nil
-- state, in which `loop` has ended and the event channel is closed. An input that the current
-- `select` does not offer stays in its channel, and the machine is as it was.
pub mod Channels
pub mod Invariant
pub mod Calls
pub mod Delivery
pub mod Confirmed
pub mod Built
pub mod Safety
pub mod Diagram
pub mod Refusals
pub mod Pushing
pub mod Sessions
use phono.Base.{
  ℕ, ◌≡◌, Bool, true, false, ◌&&◌, ◌||◌, List, [], ◌∷◌, ◌++◌, Option, none, some, String, length,
  if◌then◌else◌,
}
use phono.Base.Outcome.{Outcome, done, panic, ◌>>=◌}
use phono.Pipe.Params.{World, Param, Params, no_params, add, received_by, wait_add, wait_all}
use phono.Pipe.Message.{Message, Pipe, unset, new_message, has_params}
use phono.Pipe.Broadcast.{confirm_all}
use phono.Pipe.Machine.{
  State, ready, running, pausing, paused, Event, run, pause, resume, push, measure, cancel, Error,
  Target, EventMessage, ErrChan, Machine, same, is_idle, new_chan, interrupt, has_target, dismiss,
  handle,
}
use phono.Pipe.Transition.{transition}

-- What the goroutine receives. A call of a method makes its target and its error channel;
-- `received` is what the components' error channel delivers from then on until it is closed, and
-- `behind` says whether one more call is put into the buffer of `p.events`, which holds one event,
-- before the loop has ended. When the pump asks for a message, `confirmed` is the sinks that ever
-- run the mutators of that message.
pub data Input (C : Type 0) : Type 0 where
  call_run call_pause call_resume : Input C
  call_close : (received : List (Option Error)) → (behind : Bool) → Input C
  call_push : List (Param C) → Input C
  measured : Params C → List String → Input C  -- a `measure` event, which no method sends
  provided : (confirmed : List String) → Input C
  failed : Error → Input C  -- an error on `p.errc`
  finished : Input C  -- `p.errc` is closed

abbrev pub no_target : Target
no_target = record { state = none; errc = none }

-- `s == t.state`
abbrev pub reached : State → Option State → Bool
reached s none = false
reached s (some t) = same s t

-- The loop over the sinks in `sendMessage` of the pausing state.
unfoldable pub add_received : {C : Type 0} → List String → Params C → Outcome (Params C)
add_received [] feedback = done feedback
add_received (sink ∷ sinks) feedback = do
  feedback' ← add feedback (received_by sink ∷ [])
  add_received sinks feedback'

module _ {A C : Type 0} where
  -- What `idle` does before it waits; `active` does nothing.
  unfoldable pub enter : State → Machine A C → Outcome (Machine A C)
  enter s m =
      if is_idle s && (reached s m.target.state || same s ready)
      then (do
        (t, errcs) ← dismiss m.target m.errcs
        done (record m { state = some s; target = t; errcs = errcs }))
      else done (record m { state = some s })

  -- `if s != newState { return newState, t }`, and the next round of `loop`, or its end.
  unfoldable pub proceed : State → Option State → Machine A C → Outcome (Machine A C)
  proceed s none m = do
    (t, errcs) ← dismiss m.target m.errcs
    done (record m { state = none; target = t; errcs = errcs })
  proceed s (some next) m = if same s next then done m else enter next m

  -- The error of a transition goes to the event's own target; otherwise that target, if it has a
  -- channel, takes the place of the one before, which is dismissed.
  unfoldable pub answer : Option Error → Target → Machine A C → Outcome (Machine A C)
  answer (some err) t m = do errcs ← handle t err m.errcs; done (record m { errcs = errcs })
  answer none t m =
      if has_target t
      then (do (_, errcs) ← dismiss m.target m.errcs; done (record m { target = t; errcs = errcs }))
      else done m

  -- The case `e := <-p.events` of both loops.
  unfoldable pub on_event :
      State → EventMessage C → List (Option Error) → Machine A C → Outcome (Machine A C)
  on_event s e received m = do
    r ← transition s e.event m.pipe e received m.world
    m' ← answer r.error e.target (record m { pipe = r.pipe; world = r.world })
    proceed s r.next m'

  -- `Run`, `Pause`, `Resume` and `Close`: an event with a new channel and the state to be reached.
  unfoldable pub on_call :
      State → Event → Option State → List (Option Error) → Machine A C → Outcome (Machine A C)
  on_call s event goal received m =
      let errc = some (length m.errcs) in
      let e : EventMessage C = record {
        event = event;
        params = none;
        components = [];
        target = record { state = goal; errc = errc };
      } in
      on_event s e received (record m { errcs = m.errcs ++ new_chan ∷ [] })

  -- `Push`: nothing for no values.
  unfoldable pub on_push : State → List (Param C) → Machine A C → Outcome (Machine A C)
  on_push s [] m = done m
  on_push s (v ∷ values) m = do
    ps ← add no_params (v ∷ values)
    on_event s (record { event = push; params = ps; components = []; target = no_target }) [] m

  -- The message that `sendMessage` of the pausing state sends.
  unfoldable pub pausing_message : Pipe C → World C → Outcome (Pipe C × Message A C × World C)
  pausing_message p w = do
    let (p', m) = new_message p
    let feedback = if has_params m.feedback then m.feedback else no_params
    let w' = wait_add (length p.sinks) w
    feedback' ← add_received p.sinks feedback
    done (p', record m { feedback = feedback' }, w')

  -- The case `<-p.provide` of `active`. In the pausing state the wait group is waited for, which
  -- blocks the goroutine for ever if a sink never runs the mutators of the message.
  unfoldable pub on_provide : State → List String → Machine A C → Outcome (Machine A C)
  on_provide running confirmed m =
      let (p, message) = new_message m.pipe in
      proceed running (some running) (record m { pipe = p; emitted = message ∷ m.emitted })
  on_provide pausing confirmed m = do
    (p, message, w) ← pausing_message m.pipe m.world
    w' ← wait_all (confirm_all message confirmed w)
    proceed pausing (some paused) (record m { pipe = p; world = w'; emitted = message ∷ m.emitted })
  on_provide s confirmed m = done m

  -- The case `err, ok := <-p.errc` of `active`.
  unfoldable pub on_error : State → Option Error → Machine A C → Outcome (Machine A C)
  on_error s err m = if is_idle s then done m else elim err [
    | none ↦ proceed s (some ready) m
    | some err ↦ (do
      signal ← interrupt m.pipe.cancel
      errcs ← handle m.target err m.errcs
      proceed s (some ready) (record m { pipe = record m.pipe { cancel = signal }; errcs = errcs }))
  ]

  -- What is in the buffer of `p.events` when the loop closes it: nobody receives it.
  unfoldable pub leave_unread : Bool → Machine A C → Machine A C
  leave_unread behind m = record m { unread = if behind then new_chan ∷ [] else [] }

  -- One input in a state that is not nil.
  unfoldable pub listen : State → Input C → Machine A C → Outcome (Machine A C)
  listen s call_run m = on_call s run (some ready) [] m
  listen s call_pause m = on_call s pause (some paused) [] m
  listen s call_resume m = on_call s resume (some ready) [] m
  listen s (call_close received behind) m = do
    m' ← on_call s cancel none received m
    done (leave_unread behind m')
  listen s (call_push values) m = on_push s values m
  listen s (measured ps ids) m =
      on_event s (record { event = measure; params = ps; components = ids; target = no_target }) []
        m
  listen s (provided confirmed) m = on_provide s confirmed m
  listen s (failed err) m = on_error s (some err) m
  listen s finished m = on_error s none m

  -- After the end an event meets a closed channel; the others are never received.
  abbrev pub after_end : Input C → Machine A C → Outcome (Machine A C)
  after_end (call_push []) m = done m
  after_end (provided confirmed) m = done m
  after_end (failed err) m = done m
  after_end finished m = done m
  after_end _ m = panic

  unfoldable pub step : Machine A C → Input C → Outcome (Machine A C)
  step m i = elim m.state [ none ↦ after_end i m | some s ↦ listen s i m ]

  unfoldable pub run_all : Machine A C → List (Input C) → Outcome (Machine A C)
  run_all m [] = done m
  run_all m (i ∷ inputs) = do m' ← step m i; run_all m' inputs

  -- The machine that `New` starts.
  unfoldable pub new_machine : Pipe C → World C → Machine A C
  new_machine p w = record {
    pipe = record p { params = no_params; feedback = no_params; cancel = unset };
    state = some ready;
    target = no_target;
    errcs = [];
    world = w;
    emitted = [];
    unread = [];
  }
