-- ===== src/Pipe/Runner/Flow/OfPump.antt =====
-- pipe/runner.go: what a pump runner makes of the messages.
use mathlib.Core.Path.{subst}
use phono.Base.{
  ◌≤◌, ◌≡◌, refl, ◌∙◌, List, [], ◌∷◌, ◌++◌, Option, none, some, length, append_nil, sym, arith,
}
use phono.Pipe.Params.{World}
use phono.Pipe.Message.{Message}
use phono.Pipe.Meter.{Meter, Readings}
use phono.Pipe.Runner.{
  eop, other, Setup, flushed, flush_runner, Phase, requesting, receiving, sending, ended, Event,
  cancelled, accepted, received, input_closed, Runner, start_runner, bind_hooks, apply_params,
  apply_feedback,
}
use phono.Pipe.Runner.PumpRunner
use phono.Pipe.Runner.PumpRunner.{PumpFunc, Pumped, pumped, pump}
use phono.Pipe.Runner.Flow.{Serve, taken_of, taken, lag, serve_all}
use phono.Pipe.Runner.Flow.Serving.{Served, Served-next, failed_next}
use phono.Pipe.Runner.Flow.Phases.{
  same_phase, start_runner-Flows, FlowsIn, Flows, call-out, interrupt_runner-FlowsIn, FlowsIn-nil,
  run_parts,
}

module _ {A C : Type 0} (u : Setup C) (fn : PumpFunc A C) where
  abbrev served_as : Message A C → World C × Pumped A → World C × Option (Message A C)
  served_as m (w, Pumped.failure err) = (w, none)
  served_as m (w, Pumped.buffer b) =
      let (m', w') = apply_feedback u.component.id (record m { buffer = b }) w in (w', some m')

  -- The mutators for the component are applied, it gives a buffer, and what is fed back to it is
  -- applied.
  abbrev pub serve_pump : Serve A C
  serve_pump m w = let (m', w') = apply_params u.component.id m w in served_as m' (fn w')

  pumped-Flows :
      (w0 : World C) (msgs : List (Message A C)) (m m1 : Message A C) (t : Readings)
      (r : Runner A C) (p : World C × Pumped A)
      → Served serve_pump w0 msgs r.world r.out
      → serve_pump m r.world ≡ served_as m1 p
      → Flows serve_pump 1 w0 (pumped u m1 t p.1 (record r { world = p.0 })) (msgs ++ m ∷ [])
  unfolding pumped flush_runner bind_hooks
  pumped-Flows w0 msgs m m1 t r (w, Pumped.failure eop) h same =
      subst (λ out. FlowsIn serve_pump 1 w0 ended (msgs ++ m ∷ []) w out)
        (sym (call-out serve_pump flushed u.component.flusher u.source_id (record r { world = w })))
        (
          [],
          failed_next serve_pump msgs r.out m w0 r.world w h same ∙ sym (append_nil r.out),
          omega arith,
        )
  pumped-Flows w0 msgs m m1 t r (w, Pumped.failure (other n)) h same = (
    [],
    failed_next serve_pump msgs r.out m w0 r.world w h same ∙ sym (append_nil r.out),
    omega arith,
  )
  pumped-Flows w0 msgs m m1 t r (w, Pumped.buffer b) h same =
      let (m', w') = apply_feedback u.component.id (record m1 { buffer = b }) w in
      (refl, Served-next serve_pump msgs r.out m m' w0 r.world w' h same)

  step-Flows :
      (w0 : World C) (p : Phase A C) (r : Runner A C) (e : Event A C) (msgs : List (Message A C))
      → r.phase ≡ p
      → FlowsIn serve_pump 1 w0 p msgs r.world r.out
      → Flows serve_pump 1 w0 (PumpRunner.in_phase u fn p e r) (msgs ++ taken_of p e)
  unfolding PumpRunner.in_phase pump
  step-Flows w0 receiving r (received m t) msgs at h =
      let (m1, w) = apply_params u.component.id m r.world in
      pumped-Flows w0 msgs m m1 t r (fn w) h refl
  step-Flows w0 receiving r input_closed msgs at h =
      same_phase serve_pump 1 w0 receiving r msgs at h
  step-Flows w0 receiving r cancelled msgs at h =
      interrupt_runner-FlowsIn serve_pump 1 w0 u r receiving msgs h
  step-Flows w0 (sending m) r accepted msgs at h =
      FlowsIn-nil serve_pump 1 w0 requesting msgs r.world (r.out ++ m ∷ []) h.1
  step-Flows w0 (sending m) r cancelled msgs at h =
      interrupt_runner-FlowsIn serve_pump 1 w0 u r (sending m) msgs h
  step-Flows w0 requesting r cancelled msgs at h =
      interrupt_runner-FlowsIn serve_pump 1 w0 u r requesting msgs h
  step-Flows w0 receiving r accepted msgs at h = same_phase serve_pump 1 w0 receiving r msgs at h
  step-Flows w0 (sending m) r (received n t) msgs at h =
      same_phase serve_pump 1 w0 (sending m) r msgs at h
  step-Flows w0 (sending m) r input_closed msgs at h =
      same_phase serve_pump 1 w0 (sending m) r msgs at h
  step-Flows w0 requesting r accepted msgs at h =
      FlowsIn-nil serve_pump 1 w0 receiving msgs r.world r.out h
  step-Flows w0 requesting r (received m t) msgs at h =
      same_phase serve_pump 1 w0 requesting r msgs at h
  step-Flows w0 requesting r input_closed msgs at h =
      same_phase serve_pump 1 w0 requesting r msgs at h
  step-Flows w0 ended r accepted msgs at h = same_phase serve_pump 1 w0 ended r msgs at h
  step-Flows w0 ended r (received m t) msgs at h = same_phase serve_pump 1 w0 ended r msgs at h
  step-Flows w0 ended r input_closed msgs at h = same_phase serve_pump 1 w0 ended r msgs at h
  step-Flows w0 ended r cancelled msgs at h = same_phase serve_pump 1 w0 ended r msgs at h

  -- Whatever comes to a pump runner, it sends what a plain loop makes of the messages that come when it
  -- waits for one, in their order and up to the first for which the pump gives an error, the end of its
  -- data included: for every message the mutators for the component are applied, the pump gives the
  -- buffer, and what is fed back to the component is applied. While it asks for a message or waits for
  -- it, it has sent them all; otherwise all but the last one at least.
  pub pump_flow :
      (w : World C) (meter : Meter) (es : List (Event A C))
      → let r0 : Runner A C = start_runner u w meter requesting in
        let r = PumpRunner.run u fn r0 es in
        (rest : List (Message A C)) × ((serve_all serve_pump
            (taken (PumpRunner.step u fn) r0 es)
            r0.world).1
          ≡ r.out ++ rest)
        × (length rest ≤ lag 1 r.phase)
  unfolding PumpRunner.run PumpRunner.step start_runner bind_hooks serve_all
  pump_flow w meter es =
      let r0 : Runner A C = start_runner u w meter requesting in
      run_parts serve_pump 1 r0.world (PumpRunner.step u fn) (PumpRunner.run u fn) (λ r. refl)
        (λ r e es. refl) (λ r e msgs h. step-Flows r0.world r.phase r e msgs refl h) es r0
        (start_runner-Flows serve_pump 1 u w meter requesting (λ w. (refl, refl)))
