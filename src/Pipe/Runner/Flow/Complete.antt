-- ===== src/Pipe/Runner/Flow/Complete.antt =====
-- pipe/runner.go, pipe/pipe.go: a line of runners in which nothing is under way.
use phono.Base.{ℕ, ◌≡◌, refl, sym, ap, ◌∙◌, List, [], ◌∷◌, some, map, get_elem?, String, arith}
use phono.Pipe.Params.{World}
use phono.Pipe.Message.{Message}
use phono.Pipe.Meter.{Meter}
use phono.Pipe.Broadcast.{sink_message}
use phono.Pipe.Broadcast.Sending
use phono.Pipe.Broadcast.Getting
use phono.Pipe.Broadcast.Delivered
use phono.Pipe.Broadcast.Delivered.{run-sink_message}
use phono.Pipe.MergeErrors.Sums.{of}
use phono.Pipe.Runner.{Setup, Event, Runner, Phase, start_runner, requesting, receiving}
use phono.Pipe.Runner.PumpRunner
use phono.Pipe.Runner.PumpRunner.{PumpFunc}
use phono.Pipe.Runner.ProcessRunner
use phono.Pipe.Runner.SinkRunner
use phono.Pipe.Runner.SinkRunner.{SinkFunc}
use phono.Pipe.Runner.Flow.{taken, lag, serve_all}
use phono.Pipe.Runner.Flow.Serving.{none_left}
use phono.Pipe.Runner.Flow.OfPump.{serve_pump, pump_flow}
use phono.Pipe.Runner.Flow.OfProcess.{serve_process, process_flow}
use phono.Pipe.Runner.Flow.OfSink.{serve_sink, sink_flow}
use phono.Pipe.Runner.Flow.Line.{Stage, started, sent, last_sent, serve_stages}

module _ {A C : Type 0} where
  -- The runner asks for a message or waits for one.
  abbrev pub IsWaiting : Phase A C → Type 0
  IsWaiting p = lag 1 p ≡ 0

  -- Every processor has taken all that the one before it has sent, and waits for more.
  abbrev pub IsDrained : List (Message A C) → List (Stage A C) → Type 0
  IsDrained out [] = Unit
  IsDrained out (s ∷ ss) =
      (taken (ProcessRunner.step s.setup s.fn) (started s) s.events ≡ out)
      × IsWaiting (ProcessRunner.run s.setup s.fn (started s) s.events).phase
      × IsDrained (sent s) ss

  stages_all :
      (ss : List (Stage A C)) (out : List (Message A C))
      → IsDrained out ss
      → last_sent out ss ≡ serve_stages ss out
  unfolding last_sent serve_stages
  stages_all [] out h = refl
  stages_all (s ∷ ss) out (took, waits, drained) =
      let serve = serve_process s.setup s.fn in
      let given = taken (ProcessRunner.step s.setup s.fn) (started s) s.events in
      let (rest, same, few) = process_flow s.setup s.fn s.world s.meter s.events in
      let all =
        none_left (serve_all serve given (started s).world).1 (sent s) rest same (omega arith) in
      stages_all ss (sent s) drained
      ∙ ap (serve_stages ss) (all ∙ ap (λ l. (serve_all serve l (started s).world).1) took)

  module _ (u : Setup C) (fn : PumpFunc A C) (w : World C) (meter : Meter) (es : List (Event A C))
      (ss : List (Stage A C)) (ids : List String) (bs : List (Sending.Event A C)) (i : ℕ)
      (id : String) (u' : Setup C) (fn' : SinkFunc A C) (w' : World C) (meter' : Meter)
      (es' : List (Event A C)) where
    abbrev pub pump_start : Runner A C
    pump_start = start_runner u w meter requesting

    abbrev pub sink_start : Runner A C
    sink_start = start_runner u' w' meter' receiving

    -- If in such a line the pump and every processor ask for a message or wait for one, the broadcast
    -- waits for one too or has returned without a cancellation, and each of them and the sink has taken
    -- all that was sent to it, then the sink has accepted all that the plain loops make of the messages
    -- that came to the pump: none is lost on the way.
    pub pipe_delivers :
        let pumped = PumpRunner.run u fn pump_start es in
        let broadcast = Sending.run ids Sending.start bs in
        get_elem? ids i ≡ some id
        → IsWaiting pumped.phase
        → IsDrained pumped.out ss
        → Getting.taken ids Sending.start bs ≡ last_sent pumped.out ss
        → Delivered.lag broadcast.phase (Getting.cuts bs) ≡ 0
        → taken (SinkRunner.step u' fn') sink_start es' ≡ of i broadcast.sent
        → (SinkRunner.run u' fn' sink_start es').out
          ≡ (serve_all
              (serve_sink u' fn')
              (map
                (λ m. sink_message m id)
                (serve_stages ss
                  (serve_all
                    (serve_pump u fn)
                    (taken (PumpRunner.step u fn) pump_start es)
                    pump_start.world).1))
              sink_start.world).1
    pipe_delivers there waits drained broadcast idle sink_takes =
        let given = taken (PumpRunner.step u fn) pump_start es in
        let pumped = PumpRunner.run u fn pump_start es in
        let (rest, parts, few) = pump_flow u fn w meter es in
        let (old, left, took, got, less) = run-sink_message ids bs i id there in
        let f : Message A C → Message A C = λ m. sink_message m id in
        let from_pump =
          none_left (serve_all (serve_pump u fn) given pump_start.world).1 pumped.out rest parts
            (omega arith) in
        let from_broadcast =
          none_left (Getting.taken ids Sending.start bs) old left took (omega arith) in
        sym (sink_flow u' fn' w' meter' es')
        ∙ ap (λ l. (serve_all (serve_sink u' fn') l sink_start.world).1)
            (sink_takes
              ∙ got
              ∙ ap (map f) (
                  from_broadcast
                  ∙ broadcast
                  ∙ stages_all ss pumped.out drained
                  ∙ ap (serve_stages ss) from_pump))
