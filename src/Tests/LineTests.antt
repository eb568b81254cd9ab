-- ===== src/Tests/LineTests.antt =====
-- phono_test.go: durations; pipe/pipe_test.go: a pump, a processor and the second of two sinks.
use phono.Base.{
  ◌*◌, ◌/◌, ℕ, false, ◌+◌, ◌≡◌, refl, List, [], ◌∷◌, map, none, some, String, ltb, if◌then◌else◌,
}
use phono.Base.Int.{ℤ, pos, negsuc}
use phono.Pipe.Params.{World, apply_to, detach}
use phono.Pipe.Message.{Message}
use phono.Pipe.Meter.{FloatArithmetic, duration_of, Meter, Readings, new_meter, message, sample}
use phono.Pipe.Broadcast.{sink_message}
use phono.Pipe.Broadcast.Getting
use phono.Pipe.Broadcast.Sending
use phono.Pipe.Runner.{
  Setup, Event, accepted, received, input_closed, cancelled, eop, start_runner, requesting,
  receiving, call, bind_hooks, interrupt_runner, flush_runner,
}
use phono.Pipe.Runner.PumpRunner.{PumpFunc, Pumped, pumped, pump}
use phono.Pipe.Runner.ProcessRunner.{ProcessFunc, Processed, processed, process}
use phono.Pipe.Runner.ProcessRunner
use phono.Pipe.Runner.SinkRunner
use phono.Pipe.Runner.SinkRunner.{SinkFunc, sunk, sink}
use phono.Pipe.Runner.PumpRunner
use phono.Pipe.Runner.Flow.{taken, serve_all}
use phono.Pipe.Runner.Flow.OfPump.{serve_pump}
use phono.Pipe.Runner.Flow.OfSink.{serve_sink}
use phono.Pipe.Runner.Flow.Complete.{pipe_delivers}
use phono.Pipe.Runner.Flow.Line.{IsPrefix, Stage, serve_stages, last_sent, pipe_flow}

abbrev world : World ℕ
world = record { components = 0; waiting = 0; negative = false }

-- Fractions of natural numbers, rounded down at the end, in place of float64.
abbrev natural : ℤ → ℕ
natural (pos n) = n
natural (negsuc n) = 0

abbrev fractions : FloatArithmetic (ℕ × ℕ)
fractions = record {
  of_int64 = λ v. (natural v, 1);
  mul = λ x y. (x.0 * y.0, x.1 * y.1);
  div = λ x y. (x.0 * y.1, x.1 * y.0);
  to_int64 = λ x. pos (x.0 / x.1);
}

-- The cases of `TestDuration`.
one_second : duration_of fractions (pos 44100) (pos 44100) ≡ pos 1000000000
unfolding duration_of
one_second = refl

half_second : duration_of fractions (pos 44100) (pos 22050) ≡ pos 500000000
unfolding duration_of
half_second = refl

fifty_samples : duration_of fractions (pos 44100) (pos 50) ≡ pos 1133786
unfolding duration_of
fifty_samples = refl

abbrev setup : String → Setup ℕ
setup id = record {
  component = record { id = id; flusher = none; interrupter = none; resetter = none };
  source_id = "p";
  duration_of = duration_of fractions;
}

abbrev meter : Meter
meter = new_meter (pos 44100) (pos 0) (pos 0) (some [])

abbrev readings : Readings
readings = record { since = pos 5; now = pos 6; total = pos 7 }

abbrev with_sample : ℕ → Message ℕ ℕ
with_sample n = record {
  buffer = some ((n ∷ []) ∷ []);
  params = none;
  source_id = "p";
  feedback = none;
}

-- It gives two buffers.
abbrev pump_twice : PumpFunc ℕ ℕ
pump_twice w = (
  record w { components = w.components + 1 },
  (if ltb 1 w.components
      then Pumped.failure eop
      else Pumped.buffer (some ((w.components ∷ []) ∷ []))),
)

abbrev pass_on : ProcessFunc ℕ ℕ
pass_on b w = (w, Processed.buffer b)

abbrev accept : SinkFunc ℕ ℕ
accept b w = (w, none)

abbrev pump_events : List (Event ℕ ℕ)
pump_events =
    accepted
    ∷ received (with_sample 9) readings
    ∷ accepted
    ∷ accepted
    ∷ received (with_sample 9) readings
    ∷ accepted
    ∷ accepted
    ∷ received (with_sample 9) readings
    ∷ []

-- The second message is not sent any more.
abbrev stage : Stage ℕ ℕ
stage = record {
  setup = setup "processor";
  fn = pass_on;
  world = world;
  meter = meter;
  events =
      received (with_sample 0) readings
      ∷ accepted
      ∷ received (with_sample 1) readings
      ∷ cancelled
      ∷ [];
}

abbrev broadcast_events : List (Sending.Event ℕ ℕ)
broadcast_events =
    Sending.Event.received (with_sample 0)
    ∷ Sending.Event.accepted
    ∷ Sending.Event.accepted
    ∷ Sending.Event.input_closed
    ∷ []

abbrev sink_events : List (Event ℕ ℕ)
sink_events = received (with_sample 0) readings ∷ input_closed ∷ []

pipe_flow_example :
    let r0 = start_runner (setup "pump") world meter requesting in
    let sink0 = start_runner (setup "s2") world meter receiving in
    IsPrefix
      (SinkRunner.run (setup "s2") accept sink0 sink_events).out
      (serve_all
        (serve_sink (setup "s2") accept)
        (map
          (λ m. sink_message m "s2")
          (serve_stages
            (stage ∷ [])
            (serve_all
              (serve_pump (setup "pump") pump_twice)
              (taken (PumpRunner.step (setup "pump") pump_twice) r0 pump_events)
              r0.world).1))
        sink0.world).1
unfolding taken PumpRunner.run PumpRunner.step PumpRunner.in_phase pump pumped ProcessRunner.run
    ProcessRunner.step ProcessRunner.in_phase process processed SinkRunner.run SinkRunner.step
    SinkRunner.in_phase sink sunk start_runner call bind_hooks interrupt_runner flush_runner message
    sample apply_to new_meter last_sent Sending.run Sending.step Sending.start Sending.in_phase
    sink_message Getting.taken detach
pipe_flow_example =
    pipe_flow (setup "pump") pump_twice world meter pump_events (stage ∷ []) ("s1" ∷ "s2" ∷ [])
      broadcast_events 1 "s2" (setup "s2") accept world meter sink_events refl (([], refl), tt)
      ([], refl) ([], refl)

-- The second message is lost with the cancellation of the processor.
sink_messages :
    (SinkRunner.run
      (setup "s2")
      accept
      (start_runner (setup "s2") world meter receiving)
      sink_events).out
    ≡ with_sample 0 ∷ []
unfolding SinkRunner.run SinkRunner.step SinkRunner.in_phase sink sunk start_runner call bind_hooks
    flush_runner message sample apply_to new_meter
sink_messages = refl

-- The pump is done, and asks for the message that will bring the end.
abbrev both_pumped : List (Event ℕ ℕ)
both_pumped =
    accepted
    ∷ received (with_sample 9) readings
    ∷ accepted
    ∷ accepted
    ∷ received (with_sample 9) readings
    ∷ accepted
    ∷ []

abbrev both_processed : Stage ℕ ℕ
both_processed = record stage {
  events =
      received (with_sample 0) readings
      ∷ accepted
      ∷ received (with_sample 1) readings
      ∷ accepted
      ∷ [];
}

abbrev both_broadcast : List (Sending.Event ℕ ℕ)
both_broadcast =
    Sending.Event.received (with_sample 0)
    ∷ Sending.Event.accepted
    ∷ Sending.Event.accepted
    ∷ Sending.Event.received (with_sample 1)
    ∷ Sending.Event.accepted
    ∷ Sending.Event.accepted
    ∷ []

abbrev both_sunk : List (Event ℕ ℕ)
both_sunk = received (with_sample 0) readings ∷ received (with_sample 1) readings ∷ []

pipe_delivers_example :
    let r0 = start_runner (setup "pump") world meter requesting in
    let sink0 = start_runner (setup "s2") world meter receiving in
    (SinkRunner.run (setup "s2") accept sink0 both_sunk).out
    ≡ (serve_all
        (serve_sink (setup "s2") accept)
        (map
          (λ m. sink_message m "s2")
          (serve_stages
            (both_processed ∷ [])
            (serve_all
              (serve_pump (setup "pump") pump_twice)
              (taken (PumpRunner.step (setup "pump") pump_twice) r0 both_pumped)
              r0.world).1))
        sink0.world).1
unfolding taken PumpRunner.run PumpRunner.step PumpRunner.in_phase pump pumped ProcessRunner.run
    ProcessRunner.step ProcessRunner.in_phase process processed SinkRunner.run SinkRunner.step
    SinkRunner.in_phase sink sunk start_runner call bind_hooks interrupt_runner flush_runner message
    sample apply_to new_meter last_sent Sending.run Sending.step Sending.start Sending.in_phase
    sink_message Getting.taken detach
pipe_delivers_example =
    pipe_delivers (setup "pump") pump_twice world meter both_pumped (both_processed ∷ [])
      ("s1" ∷ "s2" ∷ []) both_broadcast 1 "s2" (setup "s2") accept world meter both_sunk refl refl
      (refl, refl, tt) refl refl refl
