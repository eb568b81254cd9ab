-- ===== src/Pipe/Runner.antt =====
-- pipe/runner.go: what the goroutines of the three runners share. A runner is a machine: what it
-- waits for in a `select` or at a channel is its phase, and what it gets there is an input. The log
-- of the calls of `call` (also of a hook that is nil), the errors sent on its error channel and the
-- messages sent on its output are kept in the order in which they happen.
pub mod PumpRunner
pub mod ProcessRunner
pub mod SinkRunner
pub mod Lifecycle
pub mod Counting
pub mod Flow
use phono.Base.{ℕ, ◌≡◌, Bool, true, false, List, [], ◌∷◌, ◌++◌, Option, none, some, String}
use phono.Base.Int.{ℤ}
use phono.Buffer.{Buffer, size}
use phono.Pipe.Params.{World, apply_to}
use phono.Pipe.Message.{Message}
use phono.Pipe.Meter.{Meter, Readings}

-- `phono.ErrEOP`, or any other error.
pub data Failure : Type 0 where
  eop : Failure
  other : ℕ → Failure

-- A hook of a component changes the components, and may return an error.
abbrev pub Hook : Type 0 → Type 0
Hook C = String → World C → World C × Option Failure

pub record Hooks (C : Type 0) : Type 0 where
  pub flush : Option (Hook C)
  pub interrupt : Option (Hook C)
  pub reset : Option (Hook C)

-- A component, with the methods that it may implement; `flusher`, `interrupter` and `resetter` are
-- type assertions for these.
pub record Component (C : Type 0) : Type 0 where
  pub id : String
  pub flusher : Option (Hook C)
  pub interrupter : Option (Hook C)
  pub resetter : Option (Hook C)

-- `bindHooks`
unfoldable pub bind_hooks : {C : Type 0} → Component C → Hooks C
bind_hooks v = record { flush = v.flusher; interrupt = v.interrupter; reset = v.resetter }

pub data HookName : Type 0 where
  flushed interrupted was_reset : HookName

pub data Phase (A C : Type 0) : Type 0 where
  requesting : Phase A C  -- the pump asks for a message
  receiving : Phase A C
  sending : Message A C → Phase A C
  ended : Phase A C  -- the goroutine has returned, and its channels are closed

pub data Event (A C : Type 0) : Type 0 where
  cancelled : Event A C  -- `cancel` is closed
  accepted : Event A C  -- the request or the message was received on the other side
  received : Message A C → Readings → Event A C
  input_closed : Event A C

pub record Runner (A C : Type 0) : Type 0 where
  pub world : World C
  pub meter : Meter
  pub phase : Phase A C
  pub hooks_called : List HookName
  pub errors : List Failure
  pub out : List (Message A C)

-- What all runners are given.
pub record Setup (C : Type 0) : Type 0 where
  pub component : Component C
  pub source_id : String
  pub duration_of : ℤ → ℤ → ℤ

module _ {A C : Type 0} where
  -- `errc <- err`; the goroutine of `mergeErrors` receives it.
  abbrev pub report : Option Failure → Runner A C → Runner A C
  report none r = r
  report (some err) r = record r { errors = r.errors ++ err ∷ [] }

  -- `call`, which does nothing for a nil hook.
  unfoldable pub call : HookName → Option (Hook C) → String → Runner A C → Runner A C
  call name none source_id r = record r { hooks_called = r.hooks_called ++ name ∷ [] }
  call name (some hook) source_id r =
      let (w, err) = hook source_id r.world in
      report err (record r { world = w; hooks_called = r.hooks_called ++ name ∷ [] })

  -- Return: the deferred calls close the error channel and the output.
  abbrev pub finish : Runner A C → Runner A C
  finish r = record r { phase = ended }

  -- `case <-cancel`
  unfoldable pub interrupt_runner : Setup C → Runner A C → Runner A C
  unfolding call bind_hooks
  interrupt_runner u r = finish (call interrupted (bind_hooks u.component).interrupt u.source_id r)

  unfoldable pub flush_runner : Setup C → Runner A C → Runner A C
  unfolding call bind_hooks
  flush_runner u r = finish (call flushed (bind_hooks u.component).flush u.source_id r)

  -- Before the loop: `call(r.reset, ...)`.
  unfoldable pub start_runner : Setup C → World C → Meter → Phase A C → Runner A C
  unfolding call bind_hooks
  start_runner u w meter phase =
      call was_reset (bind_hooks u.component).reset u.source_id (record {
        world = w;
        meter = meter;
        phase = phase;
        hooks_called = [];
        errors = [];
        out = [];
      })

  -- `m.feedback.applyTo(r.ID())`, after the message is processed.
  abbrev pub apply_feedback : String → Message A C → World C → Message A C × World C
  apply_feedback id m w =
      let (fb, w') = apply_to m.feedback id w in (record m { feedback = fb }, w')

  abbrev pub apply_params : String → Message A C → World C → Message A C × World C
  apply_params id m w = let (ps, w') = apply_to m.params id w in (record m { params = ps }, w')
