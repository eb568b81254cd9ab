-- ===== src/Pipe/Runner/Lifecycle/OfPump.antt =====
-- pipe/runner.go: the hooks that the goroutine of a pump runner calls.
use phono.Base.{◌≡◌, refl, inl, List, [], ◌∷◌}
use phono.Pipe.Params.{World}
use phono.Pipe.Message.{Message}
use phono.Pipe.Meter.{Meter, Readings}
use phono.Pipe.Runner.{
  eop, other, was_reset, Setup, Phase, requesting, receiving, sending, ended, Event, cancelled,
  accepted, received, input_closed, Runner, start_runner, apply_params,
}
use phono.Pipe.Runner.PumpRunner
use phono.Pipe.Runner.PumpRunner.{Pumped, PumpFunc, buffer, failure, pump, pumped}
use phono.Pipe.Runner.Lifecycle.{
  IsOrderly, interrupt_runner-IsOrderly, flush_runner-IsOrderly, start_runner-IsOrderly,
}

module _ {A C : Type 0} where
  pumped-IsOrderly :
      (u : Setup C) (m : Message A C) (t : Readings) (result : Pumped A) (r : Runner A C)
      → r.hooks_called ≡ was_reset ∷ []
      → let r' = pumped u m t result r in IsOrderly r'.phase r'.hooks_called
  unfolding pumped
  pumped-IsOrderly u m t (failure eop) r h = flush_runner-IsOrderly u r h
  pumped-IsOrderly u m t (failure (other n)) r h = inl h
  pumped-IsOrderly u m t (buffer b) r h = h

  pump-IsOrderly :
      (u : Setup C) (fn : PumpFunc A C) (p : Phase A C) (e : Event A C) (r : Runner A C)
      → r.phase ≡ p
      → IsOrderly p r.hooks_called
      → let r' = PumpRunner.in_phase u fn p e r in IsOrderly r'.phase r'.hooks_called
  unfolding PumpRunner.in_phase pump
  pump-IsOrderly u fn ended e r eq h = rw eq h
  pump-IsOrderly u fn requesting cancelled r eq h = interrupt_runner-IsOrderly u r h
  pump-IsOrderly u fn receiving cancelled r eq h = interrupt_runner-IsOrderly u r h
  pump-IsOrderly u fn (sending m) cancelled r eq h = interrupt_runner-IsOrderly u r h
  pump-IsOrderly u fn requesting accepted r eq h = h
  pump-IsOrderly u fn receiving (received m t) r eq h =
      pumped-IsOrderly u (apply_params u.component.id m r.world).0 t
        (fn (apply_params u.component.id m r.world).1).1
        (record r { world = (fn (apply_params u.component.id m r.world).1).0 }) h
  pump-IsOrderly u fn (sending m) accepted r eq h = h
  pump-IsOrderly u fn requesting (received m t) r eq h = rw eq h
  pump-IsOrderly u fn requesting input_closed r eq h = rw eq h
  pump-IsOrderly u fn receiving accepted r eq h = rw eq h
  pump-IsOrderly u fn receiving input_closed r eq h = rw eq h
  pump-IsOrderly u fn (sending n) (received m t) r eq h = rw eq h
  pump-IsOrderly u fn (sending n) input_closed r eq h = rw eq h

  step-IsOrderly :
      (u : Setup C) (fn : PumpFunc A C) (e : Event A C) (r : Runner A C)
      → IsOrderly r.phase r.hooks_called
      → let r' = PumpRunner.step u fn r e in IsOrderly r'.phase r'.hooks_called
  unfolding PumpRunner.step
  step-IsOrderly u fn e r h = pump-IsOrderly u fn r.phase e r refl h

  run-IsOrderly :
      (u : Setup C) (fn : PumpFunc A C) (es : List (Event A C)) (r : Runner A C)
      → IsOrderly r.phase r.hooks_called
      → let r' = PumpRunner.run u fn r es in IsOrderly r'.phase r'.hooks_called
  unfolding PumpRunner.run
  run-IsOrderly u fn [] r h = h
  run-IsOrderly u fn (e ∷ es) r h =
      run-IsOrderly u fn es (PumpRunner.step u fn r e) (step-IsOrderly u fn e r h)

  -- Whatever the goroutine of a pump receives, and whatever its component does: it calls the reset
  -- hook first and once, after that nothing while it goes on, and before it returns at most one of
  -- the flush hook and the interrupt hook, once.
  pub pump_hooks :
      (u : Setup C) (fn : PumpFunc A C) (w : World C) (meter : Meter) (es : List (Event A C))
      → let r = PumpRunner.run u fn (start_runner u w meter requesting) es in
        IsOrderly r.phase r.hooks_called
  pump_hooks u fn w meter es =
      run-IsOrderly u fn es _ (start_runner-IsOrderly u w meter requesting refl)
