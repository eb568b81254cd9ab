-- ===== src/Pipe/Runner/SinkRunner.antt =====
-- pipe/runner.go: the goroutine of `sinkRunner.run`. It has no output: a message that is taken is
-- kept in `out` when the sink has accepted it.
use phono.Base.{List, [], ◌∷◌, ◌++◌, Option, none, some}
use phono.Base.Int.{pos}
use phono.Buffer.{Buffer, size}
use phono.Pipe.Params.{World}
use phono.Pipe.Message.{Message}
use phono.Pipe.Meter.{Readings, message, sample}
use phono.Pipe.Runner.{
  Failure, Setup, Phase, receiving, ended, Event, cancelled, received, input_closed, Runner, report,
  finish, interrupt_runner, flush_runner, apply_params, apply_feedback,
}

-- A `SinkFunc` returns an error or nil.
abbrev pub SinkFunc : Type 0 → Type 0 → Type 0
SinkFunc A C = Buffer A → World C → World C × Option Failure

module _ {A C : Type 0} where
  unfoldable pub sunk : Setup C → Message A C → Readings → Option Failure → Runner A C → Runner A C
  unfolding message sample
  sunk u m t (some err) r = finish (report (some err) r)
  sunk u m t none r =
      let meter = message t (sample u.duration_of (pos (size m.buffer)) r.meter) in
      let (m', w) = apply_feedback u.component.id m r.world in
      record r { world = w; meter = meter; out = r.out ++ m' ∷ [] }

  unfoldable pub sink : Setup C → SinkFunc A C → Message A C → Readings → Runner A C → Runner A C
  unfolding sunk
  sink u fn m t r =
      let (m', w) = apply_params u.component.id m r.world in
      let (w', result) = fn m'.buffer w in sunk u m' t result (record r { world = w' })

  unfoldable pub in_phase : Setup C → SinkFunc A C → Phase A C → Event A C → Runner A C → Runner A C
  unfolding sink interrupt_runner flush_runner
  in_phase u fn ended e r = r
  in_phase u fn p cancelled r = interrupt_runner u r
  in_phase u fn receiving (received m t) r = sink u fn m t r
  in_phase u fn receiving input_closed r = flush_runner u r
  in_phase u fn p e r = r

  unfoldable pub step : Setup C → SinkFunc A C → Runner A C → Event A C → Runner A C
  unfolding in_phase
  step u fn r e = in_phase u fn r.phase e r

  unfoldable pub run : Setup C → SinkFunc A C → Runner A C → List (Event A C) → Runner A C
  unfolding step
  run u fn r [] = r
  run u fn r (e ∷ es) = run u fn (step u fn r e) es
