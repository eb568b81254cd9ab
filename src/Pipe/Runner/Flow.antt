-- ===== src/Pipe/Runner/Flow.antt =====
-- pipe/runner.go: the messages that go through a runner, against a plain loop over them.
pub mod Serving
pub mod Phases
pub mod OfProcess
pub mod OfPump
pub mod OfSink
pub mod Line
pub mod Complete
use mathlib.Core.List.{append_assoc}
use mathlib.Core.Path.{subst}
use phono.Base.{
  ℕ, zero, suc, ◌+◌, ◌≤◌, ◌≡◌, refl, sym, ap, ap₂, ◌∙◌, List, [], ◌∷◌, ◌++◌, Option, none, some,
  append_nil, length, length-append, String, arith,
}
use phono.Pipe.Params.{World}
use phono.Pipe.Message.{Message}
use phono.Pipe.Meter.{Meter}
use phono.Pipe.Runner.{
  Failure, Hook, HookName, Setup, Phase, requesting, receiving, sending, ended, Event, cancelled,
  accepted, received, input_closed, Runner, report, call, finish, interrupted, flushed,
  start_runner, was_reset, interrupt_runner, flush_runner, bind_hooks,
}

-- What becomes of one message: the message that goes on, or none if the component fails.
abbrev pub Serve : Type 0 → Type 0 → Type 0
Serve A C = Message A C → World C → World C × Option (Message A C)

module _ {A C : Type 0} where
  -- The messages that come when the runner waits for one.
  abbrev pub taken_of : Phase A C → Event A C → List (Message A C)
  taken_of receiving (received m t) = m ∷ []
  taken_of p e = []

  unfoldable pub taken :
      (Runner A C → Event A C → Runner A C) → Runner A C → List (Event A C) → List (Message A C)
  taken step r [] = []
  taken step r (e ∷ es) = taken_of r.phase e ++ taken step (step r e) es

  -- How many messages that were served are not sent: the one that is being sent, or that was when the
  -- runner was cancelled.
  abbrev pub lag : ℕ → Phase A C → ℕ
  lag k requesting = 0
  lag k receiving = 0
  lag k (sending m) = k
  lag k ended = k

module _ {A C : Type 0} (serve : Serve A C) where
  -- A loop that serves messages one after another, up to the first that fails.
  abbrev pub after_serve :
      (World C → World C × List (Message A C))
      → World C × Option (Message A C)
      → World C × List (Message A C)
  after_serve rest (w, none) = (w, [])
  after_serve rest (w, some m) = let (w', ms) = rest w in (w', m ∷ ms)

  unfoldable pub serve_all : List (Message A C) → World C → World C × List (Message A C)
  serve_all [] w = (w, [])
  serve_all (m ∷ ms) w = after_serve (serve_all ms) (serve m w)
