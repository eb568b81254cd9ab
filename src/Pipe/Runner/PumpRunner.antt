-- ===== src/Pipe/Runner/PumpRunner.antt =====
-- pipe/runner.go: the goroutine of `pumpRunner.run`.
use phono.Base.{List, [], ◌∷◌, ◌++◌, some}
use phono.Base.Int.{pos}
use phono.Buffer.{Buffer, size}
use phono.Pipe.Params.{World}
use phono.Pipe.Message.{Message}
use phono.Pipe.Meter.{Readings, message, sample}
use phono.Pipe.Runner.{
  Failure, eop, other, Setup, Phase, requesting, receiving, sending, ended, Event, cancelled,
  accepted, received, Runner, report, finish, interrupt_runner, flush_runner, apply_params,
  apply_feedback,
}

-- A `PumpFunc` returns a buffer or an error.
pub data Pumped (A : Type 0) : Type 0 where
  buffer : Buffer A → Pumped A
  failure : Failure → Pumped A

abbrev pub PumpFunc : Type 0 → Type 0 → Type 0
PumpFunc A C = World C → World C × Pumped A

module _ {A C : Type 0} where
  -- From the call of the pump function on, with the message whose parameters are applied.
  unfoldable pub pumped : Setup C → Message A C → Readings → Pumped A → Runner A C → Runner A C
  unfolding flush_runner message sample
  pumped u m t (failure eop) r = flush_runner u r
  pumped u m t (failure (other n)) r = finish (report (some (other n)) r)
  pumped u m t (buffer b) r =
      let meter = message t (sample u.duration_of (pos (size b)) r.meter) in
      let (m', w) = apply_feedback u.component.id (record m { buffer = b }) r.world in
      record r { world = w; meter = meter; phase = sending m' }

  unfoldable pub pump : Setup C → PumpFunc A C → Message A C → Readings → Runner A C → Runner A C
  unfolding pumped
  pump u fn m t r =
      let (m', w) = apply_params u.component.id m r.world in
      let (w', result) = fn w in pumped u m' t result (record r { world = w' })

  -- One wait of the loop; an input that it does not offer is left where it is.
  unfoldable pub in_phase : Setup C → PumpFunc A C → Phase A C → Event A C → Runner A C → Runner A C
  unfolding pump interrupt_runner
  in_phase u fn ended e r = r
  in_phase u fn p cancelled r = interrupt_runner u r
  in_phase u fn requesting accepted r = record r { phase = receiving }
  in_phase u fn receiving (received m t) r = pump u fn m t r
  in_phase u fn (sending m) accepted r = record r { phase = requesting; out = r.out ++ m ∷ [] }
  in_phase u fn p e r = r

  unfoldable pub step : Setup C → PumpFunc A C → Runner A C → Event A C → Runner A C
  unfolding in_phase
  step u fn r e = in_phase u fn r.phase e r

  unfoldable pub run : Setup C → PumpFunc A C → Runner A C → List (Event A C) → Runner A C
  unfolding step
  run u fn r [] = r
  run u fn r (e ∷ es) = run u fn (step u fn r e) es
