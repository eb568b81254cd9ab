-- ===== src/Pipe/Runner/Lifecycle/OfSink.antt =====
-- pipe/runner.go: the hooks that the goroutine of a sink runner calls.
use phono.Base.{◌≡◌, refl, inl, List, [], ◌∷◌, Option, none, some}
use phono.Pipe.Params.{World}
use phono.Pipe.Message.{Message}
use phono.Pipe.Meter.{Meter, Readings}
use phono.Pipe.Runner.{
  Failure, was_reset, Setup, Phase, requesting, receiving, sending, ended, Event, cancelled,
  accepted, received, input_closed, Runner, start_runner, apply_params,
}
use phono.Pipe.Runner.SinkRunner
use phono.Pipe.Runner.SinkRunner.{SinkFunc, sink, sunk}
use phono.Pipe.Runner.Lifecycle.{
  IsOrderly, interrupt_runner-IsOrderly, flush_runner-IsOrderly, start_runner-IsOrderly,
}

module _ {A C : Type 0} where
  sunk-IsOrderly :
      (u : Setup C) (m : Message A C) (t : Readings) (result : Option Failure) (r : Runner A C)
      → r.phase ≡ receiving
      → r.hooks_called ≡ was_reset ∷ []
      → let r' = sunk u m t result r in IsOrderly r'.phase r'.hooks_called
  unfolding sunk
  sunk-IsOrderly u m t (some err) r eq h = inl h
  sunk-IsOrderly u m t none r eq h = rw eq h

  sink-IsOrderly :
      (u : Setup C) (fn : SinkFunc A C) (p : Phase A C) (e : Event A C) (r : Runner A C)
      → r.phase ≡ p
      → IsOrderly p r.hooks_called
      → let r' = SinkRunner.in_phase u fn p e r in IsOrderly r'.phase r'.hooks_called
  unfolding SinkRunner.in_phase sink
  sink-IsOrderly u fn ended e r eq h = rw eq h
  sink-IsOrderly u fn requesting cancelled r eq h = interrupt_runner-IsOrderly u r h
  sink-IsOrderly u fn receiving cancelled r eq h = interrupt_runner-IsOrderly u r h
  sink-IsOrderly u fn (sending m) cancelled r eq h = interrupt_runner-IsOrderly u r h
  sink-IsOrderly u fn receiving (received m t) r eq h =
      let (m', w) = apply_params u.component.id m r.world in
      sunk-IsOrderly u m' t (fn m'.buffer w).1 (record r { world = (fn m'.buffer w).0 }) eq h
  sink-IsOrderly u fn receiving input_closed r eq h = flush_runner-IsOrderly u r h
  sink-IsOrderly u fn (sending m) accepted r eq h = rw eq h
  sink-IsOrderly u fn receiving accepted r eq h = rw eq h
  sink-IsOrderly u fn requesting accepted r eq h = rw eq h
  sink-IsOrderly u fn requesting (received m t) r eq h = rw eq h
  sink-IsOrderly u fn requesting input_closed r eq h = rw eq h
  sink-IsOrderly u fn (sending n) (received m t) r eq h = rw eq h
  sink-IsOrderly u fn (sending n) input_closed r eq h = rw eq h

  step-IsOrderly :
      (u : Setup C) (fn : SinkFunc A C) (e : Event A C) (r : Runner A C)
      → IsOrderly r.phase r.hooks_called
      → let r' = SinkRunner.step u fn r e in IsOrderly r'.phase r'.hooks_called
  unfolding SinkRunner.step
  step-IsOrderly u fn e r h = sink-IsOrderly u fn r.phase e r refl h

  run-IsOrderly :
      (u : Setup C) (fn : SinkFunc A C) (es : List (Event A C)) (r : Runner A C)
      → IsOrderly r.phase r.hooks_called
      → let r' = SinkRunner.run u fn r es in IsOrderly r'.phase r'.hooks_called
  unfolding SinkRunner.run
  run-IsOrderly u fn [] r h = h
  run-IsOrderly u fn (e ∷ es) r h =
      run-IsOrderly u fn es (SinkRunner.step u fn r e) (step-IsOrderly u fn e r h)

  -- Whatever the goroutine of a sink receives, and whatever its component does: it calls the reset
  -- hook first and once, after that nothing while it goes on, and before it returns at most one of
  -- the flush hook and the interrupt hook, once.
  pub sink_hooks :
      (u : Setup C) (fn : SinkFunc A C) (w : World C) (meter : Meter) (es : List (Event A C))
      → let r = SinkRunner.run u fn (start_runner u w meter receiving) es in
        IsOrderly r.phase r.hooks_called
  sink_hooks u fn w meter es =
      run-IsOrderly u fn es _ (start_runner-IsOrderly u w meter receiving refl)
