-- ===== src/Pipe/Runner/Flow/OfSink.antt =====
-- pipe/runner.go: what a sink runner makes of the messages.
use mathlib.Core.Path.{subst}
use phono.Base.{
  ◌≤◌, ◌≡◌, refl, ◌∙◌, List, [], ◌∷◌, ◌++◌, Option, none, some, length, append_nil, sym, arith,
}
use phono.Pipe.Params.{World}
use phono.Pipe.Message.{Message}
use phono.Pipe.Meter.{Meter, Readings}
use phono.Pipe.Runner.{
  Failure, Setup, Phase, requesting, receiving, sending, ended, Event, cancelled, accepted,
  received, input_closed, Runner, start_runner, bind_hooks, apply_params, apply_feedback,
}
use phono.Pipe.Runner.SinkRunner
use phono.Pipe.Runner.SinkRunner.{SinkFunc, sunk, sink}
use phono.Pipe.Runner.Flow.{Serve, taken_of, taken, lag, serve_all}
use phono.Pipe.Runner.Flow.Serving.{none_left, Served, Served-next, failed_next}
use phono.Pipe.Runner.Flow.Phases.{
  same_phase, start_runner-Flows, FlowsIn, Flows, interrupt_runner-FlowsIn, flush_runner-FlowsIn,
  run_parts,
}

module _ {A C : Type 0} (u : Setup C) (fn : SinkFunc A C) where
  abbrev served_as : Message A C → World C × Option Failure → World C × Option (Message A C)
  served_as m (w, some err) = (w, none)
  served_as m (w, none) = let (m', w') = apply_feedback u.component.id m w in (w', some m')

  -- The mutators for the component are applied, the buffer is given to it, and what is fed back to it is
  -- applied.
  abbrev pub serve_sink : Serve A C
  serve_sink m w = let (m', w') = apply_params u.component.id m w in served_as m' (fn m'.buffer w')

  sunk-Flows :
      (w0 : World C) (msgs : List (Message A C)) (m m1 : Message A C) (t : Readings)
      (r : Runner A C) (p : World C × Option Failure)
      → r.phase ≡ receiving
      → Served serve_sink w0 msgs r.world r.out
      → serve_sink m r.world ≡ served_as m1 p
      → Flows serve_sink 0 w0 (sunk u m1 t p.1 (record r { world = p.0 })) (msgs ++ m ∷ [])
  unfolding sunk
  sunk-Flows w0 msgs m m1 t r (w, some err) at h same = (
    [],
    failed_next serve_sink msgs r.out m w0 r.world w h same ∙ sym (append_nil r.out),
    omega arith,
  )
  sunk-Flows w0 msgs m m1 t r (w, none) at h same =
      let (m', w') = apply_feedback u.component.id m1 w in
      subst (λ q. FlowsIn serve_sink 0 w0 q (msgs ++ m ∷ []) w' (r.out ++ m' ∷ [])) (sym at)
        (Served-next serve_sink msgs r.out m m' w0 r.world w' h same)

  step-Flows :
      (w0 : World C) (p : Phase A C) (r : Runner A C) (e : Event A C) (msgs : List (Message A C))
      → r.phase ≡ p
      → FlowsIn serve_sink 0 w0 p msgs r.world r.out
      → Flows serve_sink 0 w0 (SinkRunner.in_phase u fn p e r) (msgs ++ taken_of p e)
  unfolding SinkRunner.in_phase sink
  step-Flows w0 receiving r (received m t) msgs at h =
      let (m1, w) = apply_params u.component.id m r.world in
      sunk-Flows w0 msgs m m1 t r (fn m1.buffer w) at h refl
  step-Flows w0 receiving r input_closed msgs at h = flush_runner-FlowsIn serve_sink 0 w0 u r msgs h
  step-Flows w0 receiving r cancelled msgs at h =
      interrupt_runner-FlowsIn serve_sink 0 w0 u r receiving msgs h
  step-Flows w0 (sending m) r accepted msgs at h =
      same_phase serve_sink 0 w0 (sending m) r msgs at h
  step-Flows w0 (sending m) r cancelled msgs at h =
      interrupt_runner-FlowsIn serve_sink 0 w0 u r (sending m) msgs h
  step-Flows w0 requesting r cancelled msgs at h =
      interrupt_runner-FlowsIn serve_sink 0 w0 u r requesting msgs h
  step-Flows w0 receiving r accepted msgs at h = same_phase serve_sink 0 w0 receiving r msgs at h
  step-Flows w0 (sending m) r (received n t) msgs at h =
      same_phase serve_sink 0 w0 (sending m) r msgs at h
  step-Flows w0 (sending m) r input_closed msgs at h =
      same_phase serve_sink 0 w0 (sending m) r msgs at h
  step-Flows w0 requesting r accepted msgs at h = same_phase serve_sink 0 w0 requesting r msgs at h
  step-Flows w0 requesting r (received m t) msgs at h =
      same_phase serve_sink 0 w0 requesting r msgs at h
  step-Flows w0 requesting r input_closed msgs at h =
      same_phase serve_sink 0 w0 requesting r msgs at h
  step-Flows w0 ended r accepted msgs at h = same_phase serve_sink 0 w0 ended r msgs at h
  step-Flows w0 ended r (received m t) msgs at h = same_phase serve_sink 0 w0 ended r msgs at h
  step-Flows w0 ended r input_closed msgs at h = same_phase serve_sink 0 w0 ended r msgs at h
  step-Flows w0 ended r cancelled msgs at h = same_phase serve_sink 0 w0 ended r msgs at h

  lag_none : (p : Phase A C) → lag 0 p ≡ 0
  lag_none requesting = refl
  lag_none receiving = refl
  lag_none (sending m) = refl
  lag_none ended = refl

  -- Whatever a sink runner receives, the messages that the sink accepts are at any time those that a
  -- plain loop serves, of the messages that come when the runner waits for one, in their order, all up to
  -- the first on which the sink fails; for every message the mutators for the component are applied, the
  -- buffer is given to the sink, and what is fed back to it is applied.
  pub sink_flow :
      (w : World C) (meter : Meter) (es : List (Event A C))
      → let r0 : Runner A C = start_runner u w meter receiving in
        (serve_all serve_sink (taken (SinkRunner.step u fn) r0 es) r0.world).1
        ≡ (SinkRunner.run u fn r0 es).out
  unfolding SinkRunner.run SinkRunner.step start_runner bind_hooks serve_all
  sink_flow w meter es =
      let r0 : Runner A C = start_runner u w meter receiving in
      let r = SinkRunner.run u fn r0 es in
      let all = (serve_all serve_sink (taken (SinkRunner.step u fn) r0 es) r0.world).1 in
      let (rest, same, few) =
        run_parts serve_sink 0 r0.world (SinkRunner.step u fn) (SinkRunner.run u fn) (λ r. refl)
          (λ r e es. refl) (λ r e msgs h. step-Flows r0.world r.phase r e msgs refl h) es r0
          (start_runner-Flows serve_sink 0 u w meter receiving (λ w. (refl, refl))) in
      sym (none_left all r.out rest same (subst (λ k. length rest ≤ k) (lag_none r.phase) few))
