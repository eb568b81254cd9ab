-- ===== src/Pipe/Runner/Flow/Line.antt =====
-- pipe/runner.go, pipe/pipe.go: a pump, processors and the sinks behind a broadcast, one behind another.
use mathlib.Core.List.{append_assoc, map-append}
use mathlib.Core.Path.{subst}
use phono.Base.{
  ℕ, ◌≡◌, refl, sym, ap, ◌∙◌, List, [], ◌∷◌, ◌++◌, Option, none, some, append_nil, map, get_elem?,
  String,
}
use phono.Pipe.Params.{World}
use phono.Pipe.Message.{Message}
use phono.Pipe.Meter.{Meter}
use phono.Pipe.Broadcast.{sink_message}
use phono.Pipe.Broadcast.Sending
use phono.Pipe.MergeErrors.Sums.{of}
use phono.Pipe.Broadcast.Getting
use phono.Pipe.Broadcast.Delivered.{run-sink_message}
use phono.Pipe.Runner.{Setup, Event, Runner, start_runner, requesting, receiving}
use phono.Pipe.Runner.PumpRunner
use phono.Pipe.Runner.PumpRunner.{PumpFunc}
use phono.Pipe.Runner.ProcessRunner
use phono.Pipe.Runner.ProcessRunner.{ProcessFunc}
use phono.Pipe.Runner.SinkRunner
use phono.Pipe.Runner.SinkRunner.{SinkFunc}
use phono.Pipe.Runner.Flow.{Serve, after_serve, taken, serve_all}
use phono.Pipe.Runner.Flow.OfPump.{serve_pump, pump_flow}
use phono.Pipe.Runner.Flow.OfProcess.{serve_process, process_flow}
use phono.Pipe.Runner.Flow.OfSink.{serve_sink, sink_flow}

abbrev pub IsPrefix {ℓ} : {A : Type ℓ} → List A → List A → Type ℓ
IsPrefix {A = A} xs ys = (rest : List A) × (ys ≡ xs ++ rest)

IsPrefix-trans {ℓ} :
    {A : Type ℓ} (xs ys zs : List A) → IsPrefix xs ys → IsPrefix ys zs → IsPrefix xs zs
IsPrefix-trans xs ys zs (r, e) (r', e') = (r ++ r', e' ∙ ap (λ l. l ++ r') e ∙ append_assoc xs r r')

map-IsPrefix {ℓ κ} :
    {A : Type ℓ} {B : Type κ} (f : A → B) (xs ys : List A)
    → IsPrefix xs ys
    → IsPrefix (map f xs) (map f ys)
map-IsPrefix f xs ys (rest, e) = (map f rest, ap (map f) e ∙ map-append f xs rest)

-- A processor of a line, with what its runner receives.
pub record Stage (A C : Type 0) : Type 0 where
  pub setup : Setup C
  pub fn : ProcessFunc A C
  pub world : World C
  pub meter : Meter
  pub events : List (Event A C)

module _ {A C : Type 0} where
  serve_all-IsPrefix :
      (serve : Serve A C) (xs ys : List (Message A C)) (w : World C)
      → IsPrefix xs ys
      → IsPrefix (serve_all serve xs w).1 (serve_all serve ys w).1
  unfolding serve_all
  serve_all-IsPrefix serve [] ys w h = ((serve_all serve ys w).1, refl)
  serve_all-IsPrefix serve (x ∷ xs) ys w (rest, e) =
      subst (λ l. IsPrefix (serve_all serve (x ∷ xs) w).1 (serve_all serve l w).1) (sym e)
        (go (serve x w) (λ w. serve_all-IsPrefix serve xs (xs ++ rest) w (rest, refl)))
    where
      go :
          (p : World C × Option (Message A C))
          → ((w : World C) → IsPrefix (serve_all serve xs w).1 (serve_all serve (xs ++ rest) w).1)
          → IsPrefix
              (after_serve serve (serve_all serve xs) p).1
              (after_serve serve (serve_all serve (xs ++ rest)) p).1
      go (w', none) next = ([], refl)
      go (w', some m) next = ((next w').0, ap (λ l. m ∷ l) (next w').1)

  abbrev pub started : Stage A C → Runner A C
  started s = start_runner s.setup s.world s.meter receiving

  abbrev pub sent : Stage A C → List (Message A C)
  sent s = (ProcessRunner.run s.setup s.fn (started s) s.events).out

  -- Every processor takes messages that the one before it sends, in their order and from the first on.
  abbrev pub IsWired : List (Message A C) → List (Stage A C) → Type 0
  IsWired out [] = Unit
  IsWired out (s ∷ ss) =
      IsPrefix (taken (ProcessRunner.step s.setup s.fn) (started s) s.events) out
      × IsWired (sent s) ss

  -- What the last one sends.
  unfoldable pub last_sent : List (Message A C) → List (Stage A C) → List (Message A C)
  last_sent out [] = out
  last_sent out (s ∷ ss) = last_sent (sent s) ss

  -- The plain loops of all processors, one after another.
  unfoldable pub serve_stages : List (Stage A C) → List (Message A C) → List (Message A C)
  serve_stages [] msgs = msgs
  serve_stages (s ∷ ss) msgs =
      serve_stages ss (serve_all (serve_process s.setup s.fn) msgs (started s).world).1

  serve_stages-IsPrefix :
      (ss : List (Stage A C)) (out msgs : List (Message A C))
      → IsWired out ss
      → IsPrefix out msgs
      → IsPrefix (last_sent out ss) (serve_stages ss msgs)
  unfolding last_sent serve_stages
  serve_stages-IsPrefix [] out msgs wired h = h
  serve_stages-IsPrefix (s ∷ ss) out msgs (here, wired) h =
      let serve = serve_process s.setup s.fn in
      let given = taken (ProcessRunner.step s.setup s.fn) (started s) s.events in
      let (rest, same, few) = process_flow s.setup s.fn s.world s.meter s.events in
      serve_stages-IsPrefix ss (sent s) (serve_all serve msgs (started s).world).1 wired (
        IsPrefix-trans (sent s) (serve_all serve given (started s).world).1
          (serve_all serve msgs (started s).world).1 (rest, same)
          (serve_all-IsPrefix serve given msgs (started s).world
            (IsPrefix-trans given out msgs here h)))

  module _ (u : Setup C) (fn : PumpFunc A C) (w : World C) (meter : Meter) (es : List (Event A C))
      (ss : List (Stage A C)) (ids : List String) (bs : List (Sending.Event A C)) (i : ℕ)
      (id : String) (u' : Setup C) (fn' : SinkFunc A C) (w' : World C) (meter' : Meter)
      (es' : List (Event A C)) where
    abbrev pub pump_started : Runner A C
    pump_started = start_runner u w meter requesting

    abbrev pub sink_started : Runner A C
    sink_started = start_runner u' w' meter' receiving

    -- If every processor of a line, the broadcast behind the last one, and a sink take from their channel
    -- what was sent on it, in order and from the first on, then what the sink accepts is the beginning of
    -- what plain loops make of the messages that come to the pump, whatever else the goroutines receive
    -- and when: they go through the pump, then through one processor after another, each on a state of
    -- its own, and then to the sink with the mutators of that sink only.
    pub pipe_flow :
        let pumped = (PumpRunner.run u fn pump_started es).out in
        get_elem? ids i ≡ some id
        → IsWired pumped ss
        → IsPrefix (Getting.taken ids Sending.start bs) (last_sent pumped ss)
        → IsPrefix
            (taken (SinkRunner.step u' fn') sink_started es')
            (of i (Sending.run ids Sending.start bs).sent)
        → IsPrefix
            (SinkRunner.run u' fn' sink_started es').out
            (serve_all
              (serve_sink u' fn')
              (map
                (λ m. sink_message m id)
                (serve_stages ss
                  (serve_all
                    (serve_pump u fn)
                    (taken (PumpRunner.step u fn) pump_started es)
                    pump_started.world).1))
              sink_started.world).1
    pipe_flow there wired broadcast sink_wired =
        let given = taken (PumpRunner.step u fn) pump_started es in
        let all = serve_stages ss (serve_all (serve_pump u fn) given pump_started.world).1 in
        let pumped = (PumpRunner.run u fn pump_started es).out in
        let (rest, parts, few) = pump_flow u fn w meter es in
        let (old, left, took, got, less) = run-sink_message ids bs i id there in
        let here = taken (SinkRunner.step u' fn') sink_started es' in
        let accepted = (SinkRunner.run u' fn' sink_started es').out in
        let f : Message A C → Message A C = λ m. sink_message m id in
        let stages =
          serve_stages-IsPrefix ss pumped (serve_all (serve_pump u fn) given pump_started.world).1
            wired (rest, parts) in
        let old_all =
          IsPrefix-trans old (Getting.taken ids Sending.start bs) all (left, took)
            (IsPrefix-trans (Getting.taken ids Sending.start bs) (last_sent pumped ss) all broadcast
              stages) in
        let here_all =
          IsPrefix-trans here (of i (Sending.run ids Sending.start bs).sent) (map f all) sink_wired
            (subst (λ l. IsPrefix l (map f all)) (sym got) (map-IsPrefix f old all old_all)) in
        IsPrefix-trans accepted (serve_all (serve_sink u' fn') here sink_started.world).1
          (serve_all (serve_sink u' fn') (map f all) sink_started.world).1
          ([], sink_flow u' fn' w' meter' es' ∙ sym (append_nil accepted))
          (serve_all-IsPrefix (serve_sink u' fn') here (map f all) sink_started.world here_all)
