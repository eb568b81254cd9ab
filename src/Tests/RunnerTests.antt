-- ===== src/Tests/RunnerTests.antt =====
-- pipe/runner.go: a pump that ends after one buffer, a processor and a sink, with hooks.
use phono.Base.{
  arith, length, ℕ, false, ltb, if◌then◌else◌, ◌≡◌, refl, List, [], ◌∷◌, ◌++◌, ◌≤◌, none, some,
}
use phono.Base.Int.{pos}
use phono.Pipe.Params.{World, apply_to}
use phono.Pipe.Meter.{Meter, Readings, new_meter, message, sample}
use phono.Pipe.Runner.{
  eop, other, Hook, Setup, requesting, receiving, ended, Event, cancelled, accepted, received,
  input_closed, start_runner, call, bind_hooks, interrupt_runner, flush_runner, was_reset, flushed,
}
use phono.Pipe.Runner.PumpRunner
use phono.Pipe.Runner.PumpRunner.{PumpFunc, Pumped, pumped, pump}
use phono.Pipe.Runner.ProcessRunner
use phono.Pipe.Runner.ProcessRunner.{ProcessFunc, Processed, processed, process}
use phono.Pipe.Runner.SinkRunner
use phono.Pipe.Runner.SinkRunner.{SinkFunc, sunk, sink}
use phono.Pipe.Runner.Counting.{total, sink_counts}
use phono.Pipe.Runner.Flow.{taken, lag, serve_all}
use phono.Pipe.Runner.Flow.OfPump.{serve_pump, pump_flow}
use phono.Pipe.Runner.Flow.OfProcess.{serve_process, process_flow}
use phono.Pipe.Runner.Flow.OfSink.{serve_sink, sink_flow}
use phono.Pipe.Message.{Message}
use phono.Pipe.Runner.Lifecycle.{IsOrderly}
use phono.Pipe.Runner.Lifecycle.OfPump.{pump_hooks}
use phono.Pipe.Runner.Lifecycle.OfProcess.{process_hooks}
use phono.Pipe.Runner.Lifecycle.OfSink.{sink_hooks}

abbrev world : World ℕ
world = record { components = 0; waiting = 0; negative = false }

abbrev counting : Hook ℕ
counting id w = (record w { components = 10 }, none)

abbrev setup : Setup ℕ
setup = record {
  component = record {
    id = "c";
    flusher = some counting;
    interrupter = none;
    resetter = some counting;
  };
  source_id = "p";
  duration_of = λ rate n. n;
}

abbrev meter : Meter
meter = new_meter (pos 44100) (pos 0) (pos 0) (some [])

abbrev readings : Readings
readings = record { since = pos 5; now = pos 6; total = pos 7 }

abbrev msg : Message ℕ ℕ
msg = record { buffer = some ((1 ∷ 2 ∷ []) ∷ []); params = none; source_id = "p"; feedback = none }

-- The first call finds what the reset hook left and returns a buffer; the second one is the end.
abbrev pump_once : PumpFunc ℕ ℕ
pump_once w = (
  record w { components = 11 },
  (if ltb 10 w.components then Pumped.failure eop else Pumped.buffer (some ((1 ∷ 2 ∷ []) ∷ []))),
)

abbrev double : ProcessFunc ℕ ℕ
double b w = (w, Processed.buffer b)

abbrev refuse : SinkFunc ℕ ℕ
refuse b w = (w, some (other 3))

abbrev pump_events : List (Event ℕ ℕ)
pump_events = accepted ∷ received msg readings ∷ accepted ∷ accepted ∷ received msg readings ∷ []

pumped_hooks :
    (PumpRunner.run setup pump_once
      (start_runner setup world meter requesting)
      pump_events).hooks_called
    ≡ was_reset ∷ flushed ∷ []
unfolding PumpRunner.run PumpRunner.step PumpRunner.in_phase pump pumped start_runner call
    bind_hooks flush_runner interrupt_runner message sample apply_to new_meter
pumped_hooks = refl

pump_hooks_example :
    let r =
      PumpRunner.run setup pump_once (start_runner setup world meter requesting) pump_events in
    IsOrderly r.phase r.hooks_called
pump_hooks_example = pump_hooks setup pump_once world meter pump_events

process_hooks_example :
    let es : List (Event ℕ ℕ) = received msg readings ∷ cancelled ∷ input_closed ∷ [] in
    let r = ProcessRunner.run setup double (start_runner setup world meter receiving) es in
    IsOrderly r.phase r.hooks_called
process_hooks_example =
    process_hooks setup double world meter (received msg readings ∷ cancelled ∷ input_closed ∷ [])

sink_hooks_example :
    let es : List (Event ℕ ℕ) = received msg readings ∷ input_closed ∷ [] in
    let r = SinkRunner.run setup refuse (start_runner setup world meter receiving) es in
    IsOrderly r.phase r.hooks_called
sink_hooks_example = sink_hooks setup refuse world meter (received msg readings ∷ input_closed ∷ [])

abbrev accept : SinkFunc ℕ ℕ
accept b w = (w, none)

sink_counts_example :
    let es : List (Event ℕ ℕ) =
      received msg readings ∷ received msg readings ∷ input_closed ∷ received msg readings ∷ [] in
    let r =
      SinkRunner.run setup accept
        (start_runner setup world (new_meter (pos 44100) (pos 0) (pos 0) (some [])) receiving)
        es in
    (r.meter.messages ≡ pos (length r.out)) × (r.meter.samples ≡ total (pos 0) r.out)
sink_counts_example =
    sink_counts setup accept world (pos 44100) (pos 0) (pos 0) (some [])
      (received msg readings ∷ received msg readings ∷ input_closed ∷ received msg readings ∷ [])
      (omega arith)

pump_flow_example :
    let r0 = start_runner setup world meter requesting in
    let r = PumpRunner.run setup pump_once r0 pump_events in
    (rest : List (Message ℕ ℕ)) × ((serve_all
        (serve_pump setup pump_once)
        (taken (PumpRunner.step setup pump_once) r0 pump_events)
        r0.world).1
      ≡ r.out ++ rest)
    × (length rest ≤ lag 1 r.phase)
pump_flow_example = pump_flow setup pump_once world meter pump_events

abbrev two_messages : List (Event ℕ ℕ)
two_messages =
    received msg readings ∷ accepted ∷ received msg readings ∷ input_closed ∷ cancelled ∷ []

process_flow_example :
    let r0 = start_runner setup world meter receiving in
    let r = ProcessRunner.run setup double r0 two_messages in
    (rest : List (Message ℕ ℕ)) × ((serve_all
        (serve_process setup double)
        (taken (ProcessRunner.step setup double) r0 two_messages)
        r0.world).1
      ≡ r.out ++ rest)
    × (length rest ≤ lag 1 r.phase)
process_flow_example = process_flow setup double world meter two_messages

sink_flow_example :
    let r0 = start_runner setup world meter receiving in
    (serve_all
      (serve_sink setup accept)
      (taken (SinkRunner.step setup accept) r0 two_messages)
      r0.world).1
    ≡ (SinkRunner.run setup accept r0 two_messages).out
sink_flow_example = sink_flow setup accept world meter two_messages

-- The processor gets both messages, and is cancelled while it sends the second one.
processed_messages :
    let r =
      ProcessRunner.run setup double (start_runner setup world meter receiving) two_messages in
    (r.out ≡ msg ∷ []) × (r.phase ≡ ended)
unfolding ProcessRunner.run ProcessRunner.step ProcessRunner.in_phase process processed start_runner
    call bind_hooks interrupt_runner message sample apply_to new_meter
processed_messages = (refl, refl)
