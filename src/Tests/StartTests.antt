-- ===== src/Tests/StartTests.antt =====
-- pipe/pipe.go: a pipe that is made and started, messages for two sinks, and errors of three components.
use phono.Base.{
  ℕ, zero, suc, some-injective, ◌≡◌, ◌≤◌, refl, true, false, List, [], ◌∷◌, ◌++◌, none, some,
  String, get_elem?, map, length, arith,
}
use phono.Base.Int.{pos}
use phono.Base.Outcome.{done}
use phono.Pipe.Message.{Message}
use phono.Pipe.Broadcast.{sink_message}
use phono.Pipe.Broadcast.Sending
use phono.Pipe.Broadcast.Getting.{taken, cuts}
use phono.Pipe.Broadcast.Delivered.{lag, run-sink_message}
use phono.Pipe.MergeErrors.{
  reading, sending, returned, Output, Merge, Event, received, input_closed, delivered, taken_out,
  waited, merge_errors, run, step, at_output, receive, finish, deliver, close_out,
}
use phono.Pipe.MergeErrors.Sums.{of, held}
use phono.Pipe.MergeErrors.Merged.{run-merge_errors, closed-merge_errors, deliver-free}
use phono.Pipe.Runner.{eop, other, Component}
use phono.Pipe.Runner.PumpRunner.{PumpFunc, failure}
use phono.Pipe.Runner.ProcessRunner.{ProcessFunc, Processed}
use phono.Pipe.Runner.SinkRunner.{SinkFunc}
use phono.Pipe.Building.{made, failed, Source}
use phono.Pipe.Building.Options.{build, built, build_lem}

-- The first and the third channel have an error, and the third one is closed first.
abbrev errors_come : List (Event ℕ)
errors_come =
    received 2 7
    ∷ received 0 5
    ∷ delivered 2
    ∷ input_closed 2
    ∷ input_closed 1
    ∷ delivered 0
    ∷ taken_out
    ∷ input_closed 0
    ∷ waited
    ∷ []

run-merge_errors_example :
    (m : Merge ℕ) × (o : Output ℕ) × (run (merge_errors 3) errors_come ≡ done m)
    × (get_elem? m.outputs 2 ≡ some o)
    × (o.got ≡ of 2 m.sent ++ held o.phase)
run-merge_errors_example = run-merge_errors 3 errors_come 2 (omega arith)

abbrev merged : Merge ℕ
merged = record {
  outputs =
      record { phase = returned; got = 5 ∷ [] }
      ∷ record { phase = returned; got = [] }
      ∷ record { phase = returned; got = 7 ∷ [] }
      ∷ [];
  waiting = 0;
  capacity = 3;
  sent = (2, 7) ∷ (0, 5) ∷ [];
  taken = 1;
  closed = true;
}

abbrev merged_last : Output ℕ
merged_last = record { phase = returned; got = 7 ∷ [] }

merged_test : run (merge_errors 3) errors_come ≡ done merged
unfolding run step merge_errors at_output receive finish deliver close_out
merged_test = refl

closed-merge_errors_example : (merged_last.phase ≡ returned) × (merged_last.got ≡ of 2 merged.sent)
closed-merge_errors_example =
    closed-merge_errors 3 errors_come merged 2 merged_last merged_test refl refl

-- Nothing is received from `errc`.
abbrev two_wait : List (Event ℕ)
two_wait = received 1 7 ∷ received 0 5 ∷ delivered 1 ∷ []

abbrev waiting_merge : Merge ℕ
waiting_merge = record {
  outputs =
      record { phase = sending 5; got = 5 ∷ [] } ∷ record { phase = reading; got = 7 ∷ [] } ∷ [];
  waiting = 2;
  capacity = 2;
  sent = (1, 7) ∷ [];
  taken = 0;
  closed = false;
}

two_wait_test : run (merge_errors 2) two_wait ≡ done waiting_merge
unfolding run step merge_errors at_output receive finish deliver close_out
two_wait_test = refl

one_each : (j : ℕ) (x : Output ℕ) → get_elem? waiting_merge.outputs j ≡ some x → length x.got ≤ 1
one_each zero x is = rw (← some-injective is) (omega arith)
one_each (suc zero) x is = rw (← some-injective is) (omega arith)
one_each (suc (suc j)) x is = cc

deliver-free_example :
    (m : Merge ℕ) × (step waiting_merge (delivered 0) ≡ done m) × (m.sent ≡ (1, 7) ∷ (0, 5) ∷ [])
deliver-free_example =
    deliver-free 2 two_wait waiting_merge 0 (record { phase = sending 5; got = 5 ∷ [] }) 5
      two_wait_test one_each refl refl

abbrev heard : Message ℕ ℕ
heard = record { buffer = some ((1 ∷ []) ∷ []); params = none; source_id = "p"; feedback = none }

abbrev broadcast_events : List (Sending.Event ℕ ℕ)
broadcast_events =
    Sending.received heard
    ∷ Sending.accepted
    ∷ Sending.accepted
    ∷ Sending.received heard
    ∷ Sending.accepted
    ∷ Sending.cancelled
    ∷ []

run-sink_message_example :
    (old : List (Message ℕ ℕ)) × (rest : List (Message ℕ ℕ)) × (taken
        ("s1" ∷ "s2" ∷ [])
        Sending.start
        broadcast_events
      ≡ old ++ rest)
    × (of 1 (Sending.run ("s1" ∷ "s2" ∷ []) Sending.start broadcast_events).sent
        ≡ map (λ m. sink_message m "s2") old)
    × (length rest
        ≤ lag
            (Sending.run ("s1" ∷ "s2" ∷ []) Sending.start broadcast_events).phase
            (cuts broadcast_events))
run-sink_message_example = run-sink_message ("s1" ∷ "s2" ∷ []) broadcast_events 1 "s2" refl

abbrev nobody : String → Component ℕ
nobody id = record { id = id; flusher = none; interrupter = none; resetter = none }

abbrev ending_pump : PumpFunc ℕ ℕ
ending_pump w = (w, failure eop)

abbrev pump_source : Source ℕ (PumpFunc ℕ ℕ)
pump_source = record { component = nobody "pump"; make = λ id w. (w, made ending_pump) }

abbrev same_buffer : ProcessFunc ℕ ℕ
same_buffer b w = (w, Processed.buffer b)

abbrev processor_source : Source ℕ (ProcessFunc ℕ ℕ)
processor_source = record { component = nobody "processor"; make = λ id w. (w, made same_buffer) }

abbrev broken_sink : Source ℕ (SinkFunc ℕ ℕ)
broken_sink = record { component = nobody "sink"; make = λ id w. (w, failed (other 3)) }

build_lem_example :
    build {A = ℕ} {C = ℕ} {M = ℕ} "p"
      (pos 44100)
      pump_source
      (processor_source ∷ [])
      (broken_sink ∷ [])
    ≡ done (built "p" (pos 44100) pump_source (processor_source ∷ []) (broken_sink ∷ []))
build_lem_example = build_lem "p" (pos 44100) pump_source (processor_source ∷ []) (broken_sink ∷ [])
