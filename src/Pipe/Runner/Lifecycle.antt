-- ===== src/Pipe/Runner/Lifecycle.antt =====
-- pipe/runner.go: the hooks that a runner calls, whatever happens to it.
pub mod OfPump
pub mod OfProcess
pub mod OfSink
use phono.Base.{
  ◌≡◌, refl, sym, ap, ◌∙◌, ◌⊎◌, inl, inr, List, [], ◌∷◌, ◌++◌, Option, none, some, String, arith,
}
use phono.Base.Int.{pos}
use phono.Pipe.Params.{World}
use phono.Pipe.Message.{Message}
use phono.Pipe.Meter.{Meter, Readings}
use phono.Pipe.Runner.{
  Failure, eop, other, Component, Hook, HookName, flushed, interrupted, was_reset, Setup, Phase,
  requesting, receiving, sending, ended, Event, cancelled, accepted, received, input_closed, Runner,
  call, bind_hooks, report, finish, interrupt_runner, flush_runner, start_runner,
}

-- While the goroutine runs only `reset` was called. When it has returned, at most one of `flush`
-- and `interrupt` was called after it, once.
abbrev pub IsOrderly : {A C : Type 0} → Phase A C → List HookName → Type 0
IsOrderly ended l =
    (l ≡ was_reset ∷ []) ⊎ (l ≡ was_reset ∷ flushed ∷ []) ⊎ (l ≡ was_reset ∷ interrupted ∷ [])
IsOrderly requesting l = l ≡ was_reset ∷ []
IsOrderly receiving l = l ≡ was_reset ∷ []
IsOrderly (sending m) l = l ≡ was_reset ∷ []

module _ {A C : Type 0} where
  report-log :
      (err : Option Failure) (r : Runner A C) → (report err r).hooks_called ≡ r.hooks_called
  report-log none r = refl
  report-log (some err) r = refl

  pub call-log :
      (name : HookName) (h : Option (Hook C)) (id : String) (r : Runner A C)
      → (call name h id r).hooks_called ≡ r.hooks_called ++ name ∷ []
  unfolding call
  call-log name none id r = refl
  call-log name (some h) id r = report-log (h id r.world).1 _

  report-phase : (err : Option Failure) (r : Runner A C) → (report err r).phase ≡ r.phase
  report-phase none r = refl
  report-phase (some err) r = refl

  pub call-phase :
      (name : HookName) (h : Option (Hook C)) (id : String) (r : Runner A C)
      → (call name h id r).phase ≡ r.phase
  unfolding call
  call-phase name none id r = refl
  call-phase name (some h) id r = report-phase (h id r.world).1 _

  pub interrupt_runner-IsOrderly :
      (u : Setup C) (r : Runner A C)
      → r.hooks_called ≡ was_reset ∷ []
      → IsOrderly (interrupt_runner u r).phase (interrupt_runner u r).hooks_called
  unfolding interrupt_runner bind_hooks
  interrupt_runner-IsOrderly u r h = inr (
      inr (
        call-log interrupted u.component.interrupter u.source_id r
        ∙ ap (λ l. l ++ interrupted ∷ []) h))

  pub flush_runner-IsOrderly :
      (u : Setup C) (r : Runner A C)
      → r.hooks_called ≡ was_reset ∷ []
      → IsOrderly (flush_runner u r).phase (flush_runner u r).hooks_called
  unfolding flush_runner bind_hooks
  flush_runner-IsOrderly u r h =
      inr (inl (call-log flushed u.component.flusher u.source_id r ∙ ap (λ l. l ++ flushed ∷ []) h))

  pub start_runner-IsOrderly :
      (u : Setup C) (w : World C) (meter : Meter) (p : Phase A C)
      → IsOrderly p (was_reset ∷ [])
      → let r = start_runner u w meter p in IsOrderly r.phase r.hooks_called
  unfolding start_runner bind_hooks
  start_runner-IsOrderly u w meter p h =
      let r0 : Runner A C = record {
        world = w;
        meter = meter;
        phase = p;
        hooks_called = [];
        errors = [];
        out = [];
      } in
      rw
        (
          call-phase was_reset u.component.resetter u.source_id r0,
          call-log was_reset u.component.resetter u.source_id r0,
        )
        h
