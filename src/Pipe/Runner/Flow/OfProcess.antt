-- ===== src/Pipe/Runner/Flow/OfProcess.antt =====
-- pipe/runner.go: what a process runner makes of the messages.
use phono.Base.{
  ◌≤◌, ◌≡◌, refl, ◌∙◌, List, [], ◌∷◌, ◌++◌, Option, none, some, length, append_nil, sym, arith,
}
use phono.Pipe.Params.{World}
use phono.Pipe.Message.{Message}
use phono.Pipe.Meter.{Meter, Readings}
use phono.Pipe.Runner.{
  Setup, Phase, requesting, receiving, sending, ended, Event, cancelled, accepted, received,
  input_closed, Runner, start_runner, bind_hooks, apply_params, apply_feedback,
}
use phono.Pipe.Runner.ProcessRunner
use phono.Pipe.Runner.ProcessRunner.{ProcessFunc, Processed, processed, process}
use phono.Pipe.Runner.Flow.{Serve, taken_of, taken, lag, serve_all}
use phono.Pipe.Runner.Flow.Serving.{Served, Served-next, failed_next}
use phono.Pipe.Runner.Flow.Phases.{
  same_phase, start_runner-Flows, FlowsIn, Flows, interrupt_runner-FlowsIn, flush_runner-FlowsIn,
  FlowsIn-nil, run_parts,
}

module _ {A C : Type 0} (u : Setup C) (fn : ProcessFunc A C) where
  abbrev served_as : Message A C → World C × Processed A → World C × Option (Message A C)
  served_as m (w, Processed.failure err) = (w, none)
  served_as m (w, Processed.buffer b) =
      let (m', w') = apply_feedback u.component.id (record m { buffer = b }) w in (w', some m')

  -- The mutators for the component are applied, the buffer goes through its function, and what is fed
  -- back to it is applied.
  abbrev pub serve_process : Serve A C
  serve_process m w =
      let (m', w') = apply_params u.component.id m w in served_as m' (fn m'.buffer w')

  processed-Flows :
      (w0 : World C) (msgs : List (Message A C)) (m m1 : Message A C) (t : Readings)
      (r : Runner A C) (p : World C × Processed A)
      → Served serve_process w0 msgs r.world r.out
      → serve_process m r.world ≡ served_as m1 p
      → Flows serve_process 1 w0 (processed u m1 t p.1 (record r { world = p.0 })) (msgs ++ m ∷ [])
  unfolding processed
  processed-Flows w0 msgs m m1 t r (w, Processed.failure err) h same = (
    [],
    failed_next serve_process msgs r.out m w0 r.world w h same ∙ sym (append_nil r.out),
    omega arith,
  )
  processed-Flows w0 msgs m m1 t r (w, Processed.buffer b) h same =
      let (m', w') = apply_feedback u.component.id (record m1 { buffer = b }) w in
      (refl, Served-next serve_process msgs r.out m m' w0 r.world w' h same)

  step-Flows :
      (w0 : World C) (p : Phase A C) (r : Runner A C) (e : Event A C) (msgs : List (Message A C))
      → r.phase ≡ p
      → FlowsIn serve_process 1 w0 p msgs r.world r.out
      → Flows serve_process 1 w0 (ProcessRunner.in_phase u fn p e r) (msgs ++ taken_of p e)
  unfolding ProcessRunner.in_phase process
  step-Flows w0 receiving r (received m t) msgs at h =
      let (m1, w) = apply_params u.component.id m r.world in
      processed-Flows w0 msgs m m1 t r (fn m1.buffer w) h refl
  step-Flows w0 receiving r input_closed msgs at h =
      flush_runner-FlowsIn serve_process 1 w0 u r msgs h
  step-Flows w0 receiving r cancelled msgs at h =
      interrupt_runner-FlowsIn serve_process 1 w0 u r receiving msgs h
  step-Flows w0 (sending m) r accepted msgs at h =
      FlowsIn-nil serve_process 1 w0 receiving msgs r.world (r.out ++ m ∷ []) h.1
  step-Flows w0 (sending m) r cancelled msgs at h =
      interrupt_runner-FlowsIn serve_process 1 w0 u r (sending m) msgs h
  step-Flows w0 requesting r cancelled msgs at h =
      interrupt_runner-FlowsIn serve_process 1 w0 u r requesting msgs h
  step-Flows w0 receiving r accepted msgs at h = same_phase serve_process 1 w0 receiving r msgs at h
  step-Flows w0 (sending m) r (received n t) msgs at h =
      same_phase serve_process 1 w0 (sending m) r msgs at h
  step-Flows w0 (sending m) r input_closed msgs at h =
      same_phase serve_process 1 w0 (sending m) r msgs at h
  step-Flows w0 requesting r accepted msgs at h =
      same_phase serve_process 1 w0 requesting r msgs at h
  step-Flows w0 requesting r (received m t) msgs at h =
      same_phase serve_process 1 w0 requesting r msgs at h
  step-Flows w0 requesting r input_closed msgs at h =
      same_phase serve_process 1 w0 requesting r msgs at h
  step-Flows w0 ended r accepted msgs at h = same_phase serve_process 1 w0 ended r msgs at h
  step-Flows w0 ended r (received m t) msgs at h = same_phase serve_process 1 w0 ended r msgs at h
  step-Flows w0 ended r input_closed msgs at h = same_phase serve_process 1 w0 ended r msgs at h
  step-Flows w0 ended r cancelled msgs at h = same_phase serve_process 1 w0 ended r msgs at h

  -- Whatever a process runner receives, it sends on what a plain loop makes of the messages that come
  -- when it waits for one, in their order and up to the first on which the processor fails: for every
  -- message the mutators for the component are applied, the buffer is processed, and what is fed back to
  -- it is applied. While it waits for a message it has sent them all; otherwise all but the last one at
  -- least.
  pub process_flow :
      (w : World C) (meter : Meter) (es : List (Event A C))
      → let r0 : Runner A C = start_runner u w meter receiving in
        let r = ProcessRunner.run u fn r0 es in
        (rest : List (Message A C)) × ((serve_all serve_process
            (taken (ProcessRunner.step u fn) r0 es)
            r0.world).1
          ≡ r.out ++ rest)
        × (length rest ≤ lag 1 r.phase)
  unfolding ProcessRunner.run ProcessRunner.step start_runner bind_hooks serve_all
  process_flow w meter es =
      let r0 : Runner A C = start_runner u w meter receiving in
      run_parts serve_process 1 r0.world (ProcessRunner.step u fn) (ProcessRunner.run u fn)
        (λ r. refl) (λ r e es. refl) (λ r e msgs h. step-Flows r0.world r.phase r e msgs refl h) es
        r0 (start_runner-Flows serve_process 1 u w meter receiving (λ w. (refl, refl)))
