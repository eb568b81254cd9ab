-- ===== src/Pipe/Runner/Counting.antt =====
-- pipe/runner.go: what the meter of a sink runner counts.
use phono.Base.{
  ◌+◌, ◌^◌, ◌≤◌, ◌<◌, ◌≡◌, refl, sym, ap, ◌∙◌, List, [], ◌∷◌, ◌++◌, Option, none, some, String,
  length, length-append, arith,
}
use phono.Base.Int.{ℤ, pos, add64, add64_pos}
use phono.Buffer.{size}
use phono.Pipe.Params.{World}
use phono.Pipe.Message.{Message}
use phono.Pipe.Meter.{Meter, Readings, Counter, Value, new_meter, message, sample}
use phono.Pipe.Runner.{
  Failure, Hook, HookName, flushed, interrupted, was_reset, Setup, Phase, requesting, receiving,
  sending, ended, Event, cancelled, accepted, received, input_closed, Runner, report, call,
  bind_hooks, interrupt_runner, flush_runner, start_runner, apply_params, apply_feedback,
}
use phono.Pipe.Runner.SinkRunner
use phono.Pipe.Runner.SinkRunner.{SinkFunc, sink, sunk}

module _ {A C : Type 0} where
  -- The sizes of the buffers, added up in int64 to the samples so far.
  abbrev pub total : ℤ → List (Message A C) → ℤ
  total n [] = n
  total n (m ∷ ms) = total (add64 n (pos (size m.buffer))) ms

  total-append :
      (n : ℤ) (ms : List (Message A C)) (m : Message A C)
      → total n (ms ++ m ∷ []) ≡ add64 (total n ms) (pos (size m.buffer))
  total-append n [] m = refl
  total-append n (x ∷ ms) m = total-append (add64 n (pos (size x.buffer))) ms m

  abbrev pub IsCounted : Meter → List (Message A C) → Type 0
  IsCounted meter out = (meter.messages ≡ pos (length out)) × (meter.samples ≡ total (pos 0) out)

  -- One more message at most, and all of them counted.
  abbrev Advances : Runner A C → Runner A C → Type 0
  Advances r r' = IsCounted r'.meter r'.out × (length r'.out ≤ length r.out + 1)

  report-Advances :
      (err : Option Failure) (r : Runner A C) → IsCounted r.meter r.out → Advances r (report err r)
  report-Advances none r h = (h, omega arith)
  report-Advances (some err) r h = (h, omega arith)

  call-Advances :
      (name : HookName) (h : Option (Hook C)) (id : String) (r : Runner A C)
      → IsCounted r.meter r.out
      → Advances r (call name h id r)
  unfolding call
  call-Advances name none id r h = (h, omega arith)
  call-Advances name (some hook) id r h =
      report-Advances (hook id r.world).1
        (record r { world = (hook id r.world).0; hooks_called = r.hooks_called ++ name ∷ [] }) h

  interrupt_runner-Advances :
      (u : Setup C) (r : Runner A C) → IsCounted r.meter r.out → Advances r (interrupt_runner u r)
  unfolding interrupt_runner bind_hooks
  interrupt_runner-Advances u r h =
      call-Advances interrupted u.component.interrupter u.source_id r h

  flush_runner-Advances :
      (u : Setup C) (r : Runner A C) → IsCounted r.meter r.out → Advances r (flush_runner u r)
  unfolding flush_runner bind_hooks
  flush_runner-Advances u r h = call-Advances flushed u.component.flusher u.source_id r h

  sunk-Advances :
      (u : Setup C) (m : Message A C) (t : Readings) (result : Option Failure) (r : Runner A C)
      → length r.out + 1 < 2 ^ 63
      → IsCounted r.meter r.out
      → Advances r (sunk u m t result r)
  unfolding sunk message sample
  sunk-Advances u m t (some err) r lt h = (h, omega arith)
  sunk-Advances u m t none r lt h =
      let m' = (apply_feedback u.component.id m r.world).0 in
      let longer = length-append r.out (m' ∷ []) in
      (
        (
          ap (λ n. add64 n (pos 1)) h.0 ∙ add64_pos (length r.out) 1 lt ∙ ap pos (sym longer),
          ap (λ n. add64 n (pos (size m.buffer))) h.1 ∙ sym (total-append (pos 0) r.out m'),
        ),
        omega arith,
      )

  in_phase-Advances :
      (u : Setup C) (fn : SinkFunc A C) (p : Phase A C) (e : Event A C) (r : Runner A C)
      → length r.out + 1 < 2 ^ 63
      → IsCounted r.meter r.out
      → Advances r (SinkRunner.in_phase u fn p e r)
  unfolding SinkRunner.in_phase sink
  in_phase-Advances u fn ended e r lt h = (h, omega arith)
  in_phase-Advances u fn requesting cancelled r lt h = interrupt_runner-Advances u r h
  in_phase-Advances u fn receiving cancelled r lt h = interrupt_runner-Advances u r h
  in_phase-Advances u fn (sending m) cancelled r lt h = interrupt_runner-Advances u r h
  in_phase-Advances u fn receiving (received m t) r lt h =
      let (m', w) = apply_params u.component.id m r.world in
      sunk-Advances u m' t (fn m'.buffer w).1 (record r { world = (fn m'.buffer w).0 }) lt h
  in_phase-Advances u fn receiving input_closed r lt h = flush_runner-Advances u r h
  in_phase-Advances u fn receiving accepted r lt h = (h, omega arith)
  in_phase-Advances u fn requesting accepted r lt h = (h, omega arith)
  in_phase-Advances u fn requesting (received m t) r lt h = (h, omega arith)
  in_phase-Advances u fn requesting input_closed r lt h = (h, omega arith)
  in_phase-Advances u fn (sending n) accepted r lt h = (h, omega arith)
  in_phase-Advances u fn (sending n) (received m t) r lt h = (h, omega arith)
  in_phase-Advances u fn (sending n) input_closed r lt h = (h, omega arith)

  run-IsCounted :
      (u : Setup C) (fn : SinkFunc A C) (es : List (Event A C)) (r : Runner A C)
      → length r.out + length es < 2 ^ 63
      → IsCounted r.meter r.out
      → let r' = SinkRunner.run u fn r es in IsCounted r'.meter r'.out
  unfolding SinkRunner.run SinkRunner.step
  run-IsCounted u fn [] r lt h = h
  run-IsCounted u fn (e ∷ es) r lt h =
      let (h', longer) = in_phase-Advances u fn r.phase e r (omega arith) h in
      run-IsCounted u fn es (SinkRunner.step u fn r e) (omega arith) h'

  -- However the components, the hooks and the clock behave, and whatever a sink runner receives, in
  -- fewer than 2^63 - 1 events: its meter has counted as many messages as the sink has taken
  -- without an error, and as its samples the sum of the sizes of their buffers, in int64.
  pub sink_counts :
      (u : Setup C) (fn : SinkFunc A C) (w : World C) (rate started processed : ℤ)
      (stored : Option (List (Counter × Value))) (es : List (Event A C))
      → length es + 1 < 2 ^ 63
      → let r =
          SinkRunner.run u fn
            (start_runner u w (new_meter rate started processed stored) receiving)
            es in
        (r.meter.messages ≡ pos (length r.out)) × (r.meter.samples ≡ total (pos 0) r.out)
  unfolding start_runner bind_hooks new_meter
  sink_counts u fn w rate started processed stored es lt =
      let (counted, few) =
        call-Advances was_reset u.component.resetter u.source_id
          (record {
            world = w;
            meter = new_meter rate started processed stored;
            phase = receiving;
            hooks_called = [];
            errors = [];
            out = [];
          })
          (refl, refl) in
      run-IsCounted u fn es (start_runner u w (new_meter rate started processed stored) receiving)
        (omega arith) counted
