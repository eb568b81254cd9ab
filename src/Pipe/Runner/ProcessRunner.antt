-- ===== src/Pipe/Runner/ProcessRunner.antt =====
-- pipe/runner.go: the goroutine of `processRunner.run`.
use phono.Base.{List, [], ◌∷◌, ◌++◌, some}
use phono.Base.Int.{pos}
use phono.Buffer.{Buffer, size}
use phono.Pipe.Params.{World}
use phono.Pipe.Message.{Message}
use phono.Pipe.Meter.{Readings, message, sample}
use phono.Pipe.Runner.{
  Failure, Setup, Phase, receiving, sending, ended, Event, cancelled, accepted, received,
  input_closed, Runner, report, finish, interrupt_runner, flush_runner, apply_params,
  apply_feedback,
}

-- A `ProcessFunc` returns a buffer or an error.
pub data Processed (A : Type 0) : Type 0 where
  buffer : Buffer A → Processed A
  failure : Failure → Processed A

abbrev pub ProcessFunc : Type 0 → Type 0 → Type 0
ProcessFunc A C = Buffer A → World C → World C × Processed A

module _ {A C : Type 0} where
  unfoldable pub processed :
      Setup C → Message A C → Readings → Processed A → Runner A C → Runner A C
  unfolding message sample
  processed u m t (failure err) r = finish (report (some err) r)
  processed u m t (buffer b) r =
      let meter = message t (sample u.duration_of (pos (size b)) r.meter) in
      let (m', w) = apply_feedback u.component.id (record m { buffer = b }) r.world in
      record r { world = w; meter = meter; phase = sending m' }

  unfoldable pub process :
      Setup C → ProcessFunc A C → Message A C → Readings → Runner A C → Runner A C
  unfolding processed
  process u fn m t r =
      let (m', w) = apply_params u.component.id m r.world in
      let (w', result) = fn m'.buffer w in processed u m' t result (record r { world = w' })

  unfoldable pub in_phase :
      Setup C → ProcessFunc A C → Phase A C → Event A C → Runner A C → Runner A C
  unfolding process interrupt_runner flush_runner
  in_phase u fn ended e r = r
  in_phase u fn p cancelled r = interrupt_runner u r
  in_phase u fn receiving (received m t) r = process u fn m t r
  in_phase u fn receiving input_closed r = flush_runner u r
  in_phase u fn (sending m) accepted r = record r { phase = receiving; out = r.out ++ m ∷ [] }
  in_phase u fn p e r = r

  unfoldable pub step : Setup C → ProcessFunc A C → Runner A C → Event A C → Runner A C
  unfolding in_phase
  step u fn r e = in_phase u fn r.phase e r

  unfoldable pub run : Setup C → ProcessFunc A C → Runner A C → List (Event A C) → Runner A C
  unfolding step
  run u fn r [] = r
  run u fn r (e ∷ es) = run u fn (step u fn r e) es
