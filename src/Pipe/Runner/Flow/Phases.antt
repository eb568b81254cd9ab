-- ===== src/Pipe/Runner/Flow/Phases.antt =====
-- pipe/runner.go: what a runner has done with its messages in every phase, event by event.
use mathlib.Core.List.{append_assoc}
use mathlib.Core.Path.{subst}
use phono.Base.{
  ℕ, ◌≤◌, ◌≡◌, refl, sym, ap, ◌∙◌, List, [], ◌∷◌, ◌++◌, Option, none, some, append_nil, length,
  String, arith,
}
use phono.Pipe.Params.{World}
use phono.Pipe.Message.{Message}
use phono.Pipe.Meter.{Meter}
use phono.Pipe.Runner.{
  Failure, Hook, HookName, Setup, Phase, requesting, receiving, sending, ended, Event, Runner,
  report, call, interrupted, flushed, start_runner, was_reset, interrupt_runner, flush_runner,
  bind_hooks,
}
use phono.Pipe.Runner.Flow.{Serve, taken_of, taken, lag, serve_all}
use phono.Pipe.Runner.Flow.Serving.{Served}

module _ {A C : Type 0} (serve : Serve A C) where
  -- What a runner in a phase has done with the messages so far; k is 1 if it sends them on.
  abbrev pub FlowsIn :
      ℕ → World C → Phase A C → List (Message A C) → World C → List (Message A C) → Type 0
  FlowsIn k w0 requesting msgs w out = Served serve w0 msgs w out
  FlowsIn k w0 receiving msgs w out = Served serve w0 msgs w out
  FlowsIn k w0 (sending m) msgs w out = (k ≡ 1) × Served serve w0 msgs w (out ++ m ∷ [])
  FlowsIn k w0 ended msgs w out =
      (rest : List (Message A C)) × ((serve_all serve msgs w0).1 ≡ out ++ rest) × (length rest ≤ k)

  abbrev pub Flows : ℕ → World C → Runner A C → List (Message A C) → Type 0
  Flows k w0 r msgs = FlowsIn k w0 r.phase msgs r.world r.out

  -- A runner whose loop ends.
  Served-ended :
      (k : ℕ) (w0 w w' : World C) (msgs out : List (Message A C))
      → Served serve w0 msgs w out
      → FlowsIn k w0 ended (msgs ++ []) w' out
  Served-ended k w0 w w' msgs out (all, same) = (
    [],
    ap (λ l. (serve_all serve l w0).1) (append_nil msgs) ∙ ap (λ p. p.1) all ∙ sym (append_nil out),
    omega arith,
  )

  pub call-out :
      (name : HookName) (h : Option (Hook C)) (id : String) (r : Runner A C)
      → (call name h id r).out ≡ r.out
  unfolding call
  call-out name none id r = refl
  call-out name (some h) id r = go (h id r.world).1
    where
      go :
          (err : Option Failure)
          → (report err (record r {
            world = (h id r.world).0;
            hooks_called = r.hooks_called ++ name ∷ [];
          })).out
            ≡ r.out
      go none = refl
      go (some err) = refl

  -- The three ways in which a hook ends a runner.
  pub interrupt_runner-FlowsIn :
      (k : ℕ) (w0 : World C) (u : Setup C) (r : Runner A C) (p : Phase A C)
      (msgs : List (Message A C))
      → FlowsIn k w0 p msgs r.world r.out
      → Flows k w0 (interrupt_runner u r) (msgs ++ [])
  unfolding interrupt_runner bind_hooks
  interrupt_runner-FlowsIn k w0 u r p msgs h =
      subst (λ out. FlowsIn k w0 ended (msgs ++ []) r.world out)
        (sym (call-out interrupted u.component.interrupter u.source_id r)) (go p h)
    where
      go :
          (p : Phase A C)
          → FlowsIn k w0 p msgs r.world r.out
          → FlowsIn k w0 ended (msgs ++ []) r.world r.out
      go requesting s = Served-ended k w0 r.world r.world msgs r.out s
      go receiving s = Served-ended k w0 r.world r.world msgs r.out s
      go (sending m) (one, (all, same)) = (
        m ∷ [],
        ap (λ l. (serve_all serve l w0).1) (append_nil msgs) ∙ ap (λ p. p.1) all,
        omega arith,
      )
      go ended (rest, all, few) =
          (rest, ap (λ l. (serve_all serve l w0).1) (append_nil msgs) ∙ all, few)

  pub flush_runner-FlowsIn :
      (k : ℕ) (w0 : World C) (u : Setup C) (r : Runner A C) (msgs : List (Message A C))
      → Served serve w0 msgs r.world r.out
      → Flows k w0 (flush_runner u r) (msgs ++ [])
  unfolding flush_runner bind_hooks
  flush_runner-FlowsIn k w0 u r msgs s =
      subst (λ out. FlowsIn k w0 ended (msgs ++ []) r.world out)
        (sym (call-out flushed u.component.flusher u.source_id r))
        (Served-ended k w0 r.world r.world msgs r.out s)

  pub FlowsIn-nil :
      (k : ℕ) (w0 : World C) (p : Phase A C) (msgs : List (Message A C)) (w : World C)
      (out : List (Message A C))
      → FlowsIn k w0 p msgs w out
      → FlowsIn k w0 p (msgs ++ []) w out
  FlowsIn-nil k w0 p msgs w out h = subst (λ l. FlowsIn k w0 p l w out) (sym (append_nil msgs)) h

  -- An event that a phase does not offer.
  pub same_phase :
      (k : ℕ) (w0 : World C) (p : Phase A C) (r : Runner A C) (msgs : List (Message A C))
      → r.phase ≡ p
      → FlowsIn k w0 p msgs r.world r.out
      → Flows k w0 r (msgs ++ [])
  same_phase k w0 p r msgs at h =
      subst (λ q. FlowsIn k w0 q (msgs ++ []) r.world r.out) (sym at)
        (FlowsIn-nil k w0 p msgs r.world r.out h)

  -- The reset hook changes the components only.
  pub start_runner-Flows :
      (k : ℕ) (u : Setup C) (w : World C) (meter : Meter) (p : Phase A C)
      → ((w : World C) → FlowsIn k w p [] w [])
      → let r0 = start_runner u w meter p in Flows k r0.world r0 []
  unfolding start_runner bind_hooks call
  start_runner-Flows k u w meter p h = go u.component.resetter
    where
      start : Runner A C
      start = record {
        world = w;
        meter = meter;
        phase = p;
        hooks_called = [];
        errors = [];
        out = [];
      }

      go :
          (hook : Option (Hook C))
          → let r0 = call was_reset hook u.source_id start in Flows k r0.world r0 []
      go none = h w
      go (some hook) =
          let r1 : Runner A C = record start {
            world = (hook u.source_id w).0;
            hooks_called = was_reset ∷ [];
          } in
          elim (hook u.source_id w).1 as (λ err. Flows k (report err r1).world (report err r1) []) [
            | none ↦ h r1.world
            | some err ↦ h r1.world
          ]

  module _ (k : ℕ) (w0 : World C) (step : Runner A C → Event A C → Runner A C)
      (run : Runner A C → List (Event A C) → Runner A C) (run_nil : (r : Runner A C) → run r [] ≡ r)
      (run_cons : (r : Runner A C) (e : Event A C) (es : List (Event A C))
        → run r (e ∷ es) ≡ run (step r e) es)
      (step-Flows : (r : Runner A C) (e : Event A C) (msgs : List (Message A C))
        → Flows k w0 r msgs
        → Flows k w0 (step r e) (msgs ++ taken_of r.phase e)) where
    run-Flows :
        (es : List (Event A C)) (r : Runner A C) (msgs : List (Message A C))
        → Flows k w0 r msgs
        → Flows k w0 (run r es) (msgs ++ taken step r es)
    unfolding taken
    run-Flows [] r msgs h =
        subst (λ q. Flows k w0 q (msgs ++ [])) (sym (run_nil r))
          (FlowsIn-nil k w0 r.phase msgs r.world r.out h)
    run-Flows (e ∷ es) r msgs h =
        let next = run-Flows es (step r e) (msgs ++ taken_of r.phase e) (step-Flows r e msgs h) in
        subst (λ q. Flows k w0 q (msgs ++ (taken_of r.phase e ++ taken step (step r e) es)))
          (sym (run_cons r e es))
          (subst (λ l. Flows k w0 (run (step r e) es) l)
            (append_assoc msgs (taken_of r.phase e) (taken step (step r e) es)) next)

    -- All that a run sends, from the start of its loop on.
    pub run_parts :
        (es : List (Event A C)) (r : Runner A C)
        → Flows k w0 r []
        → (rest : List (Message A C)) × ((serve_all serve (taken step r es) w0).1
            ≡ (run r es).out ++ rest)
          × (length rest ≤ lag k (run r es).phase)
    run_parts es r h = go (run r es).phase (run-Flows es r [] h)
      where
        go :
            (p : Phase A C)
            → FlowsIn k w0 p (taken step r es) (run r es).world (run r es).out
            → (rest : List (Message A C)) × ((serve_all serve (taken step r es) w0).1
                ≡ (run r es).out ++ rest)
              × (length rest ≤ lag k p)
        go requesting (all, same) =
            ([], ap (λ p. p.1) all ∙ sym (append_nil (run r es).out), omega arith)
        go receiving (all, same) =
            ([], ap (λ p. p.1) all ∙ sym (append_nil (run r es).out), omega arith)
        go (sending m) (one, (all, same)) = (m ∷ [], ap (λ p. p.1) all, omega arith)
        go ended (rest, all, few) = (rest, all, few)
