-- ===== src/Pipe/Building/Options.antt =====
-- pipe/pipe.go: what `New` makes with a pump, processors and sinks.
use text.Mathlib.Text.{◌==◌ as str_eq}
use phono.Base.{
  ◌≡◌, refl, sym, ap, ◌∙◌, Bool, true, false, ◌||◌, List, [], ◌∷◌, ◌++◌, append_nil, none, some,
  String, if◌then◌else◌, Bool-cases, inl, inr,
}
use mathlib.Core.List.{append_assoc}
use mathlib.Core.Path.{fun_ext}
use phono.Base.Int.{ℤ}
use phono.Base.Outcome.{Outcome, done, panic, ◌>>=◌}
use phono.Pipe.Params.{World, no_params}
use phono.Pipe.Runner.PumpRunner.{PumpFunc}
use phono.Pipe.Runner.ProcessRunner.{ProcessFunc}
use phono.Pipe.Runner.SinkRunner.{SinkFunc}
use phono.Pipe.Building.{
  Made, made, failed, Source, Bound, NewPipe, Making, and_then, return, new_pump_runner,
  new_process_runner, new_sink_runner, PipeOption, with_pump, check_ids, add_processors,
  with_processors, add_sinks, with_sinks, apply_options, new_pipe,
}

module _ {C : Type 0} where
  and_then_assoc :
      {X Y Z : Type 0} (x : World C × Made X) (f : X → Making C Y) (g : Y → Making C Z)
      → and_then (and_then x f) g ≡ and_then x (λ a w. and_then (f a w) g)
  and_then_assoc (w, made a) f g = refl
  and_then_assoc (w, failed err) f g = refl

  and_then_ap :
      {X Y : Type 0} (x : World C × Made X) (f g : X → Making C Y)
      → ((a : X) (w : World C) → f a w ≡ g a w)
      → and_then x f ≡ and_then x g
  and_then_ap (w, made a) f g same = same a w
  and_then_ap (w, failed err) f g same = refl

  -- The runners of components, one after another, up to the first that fails.
  abbrev pub make_all : {X Y : Type 0} → (X → Making C Y) → List X → Making C (List Y)
  make_all one [] w = return [] w
  make_all one (s ∷ ss) w =
      and_then (one s w) (λ r w. and_then (make_all one ss w) (λ rs. return (r ∷ rs)))

  -- A component without an id.
  abbrev pub no_id : {F : Type 0} → List (Source C F) → Bool
  no_id [] = false
  no_id (s ∷ ss) = str_eq s.component.id "" || no_id ss

  check_ids_lem :
      {F : Type 0} (ss : List (Source C F)) → check_ids ss ≡ (if no_id ss then panic else done tt)
  unfolding check_ids
  check_ids_lem [] = refl
  check_ids_lem (s ∷ ss) = elim (Bool-cases (str_eq s.component.id "")) [
    | inl empty ↦ rw empty refl
    | inr named ↦ rw named (check_ids_lem ss)
  ]

module _ {A C M : Type 0} where
  add_processors_lem :
      (ss : List (Source C (ProcessFunc A C))) (p : NewPipe A C M) (w : World C)
      → add_processors ss p w
        ≡ and_then
            (make_all (new_process_runner p.uid) ss w)
            (λ rs. return (record p { processors = p.processors ++ rs }))
  unfolding add_processors
  add_processors_lem [] p w =
      ap (λ l. (w, made (record p { processors = l }))) (sym (append_nil p.processors))
  add_processors_lem (s ∷ ss) p w =
      let add = λ (rs : List (Bound C (ProcessFunc A C))).
        return (record p { processors = p.processors ++ rs }) in
      and_then_ap (new_process_runner p.uid s w) _
        (λ r w1. and_then (make_all (new_process_runner p.uid) ss w1) (λ rs. add (r ∷ rs)))
        (λ r w1.
          add_processors_lem ss (record p { processors = p.processors ++ r ∷ [] }) w1
          ∙ and_then_ap (make_all (new_process_runner p.uid) ss w1) _ (λ rs. add (r ∷ rs))
              (λ rs w2.
                ap (λ l. (w2, made (record p { processors = l })))
                  (append_assoc p.processors (r ∷ []) rs)))
      ∙ sym (
          and_then_assoc (new_process_runner p.uid s w)
            (λ r w1. and_then (make_all (new_process_runner p.uid) ss w1) (λ rs. return (r ∷ rs)))
            add
          ∙ and_then_ap (new_process_runner p.uid s w) _
              (λ r w1. and_then (make_all (new_process_runner p.uid) ss w1) (λ rs. add (r ∷ rs)))
              (λ r w1.
                and_then_assoc (make_all (new_process_runner p.uid) ss w1) (λ rs. return (r ∷ rs))
                  add))

  add_sinks_lem :
      (ss : List (Source C (SinkFunc A C))) (p : NewPipe A C M) (w : World C)
      → add_sinks ss p w
        ≡ and_then
            (make_all (new_sink_runner p.uid) ss w)
            (λ rs. return (record p { sinks = p.sinks ++ rs }))
  unfolding add_sinks
  add_sinks_lem [] p w = ap (λ l. (w, made (record p { sinks = l }))) (sym (append_nil p.sinks))
  add_sinks_lem (s ∷ ss) p w =
      let add =
        λ (rs : List (Bound C (SinkFunc A C))). return (record p { sinks = p.sinks ++ rs }) in
      and_then_ap (new_sink_runner p.uid s w) _
        (λ r w1. and_then (make_all (new_sink_runner p.uid) ss w1) (λ rs. add (r ∷ rs)))
        (λ r w1.
          add_sinks_lem ss (record p { sinks = p.sinks ++ r ∷ [] }) w1
          ∙ and_then_ap (make_all (new_sink_runner p.uid) ss w1) _ (λ rs. add (r ∷ rs))
              (λ rs w2.
                ap (λ l. (w2, made (record p { sinks = l }))) (append_assoc p.sinks (r ∷ []) rs)))
      ∙ sym (
          and_then_assoc (new_sink_runner p.uid s w)
            (λ r w1. and_then (make_all (new_sink_runner p.uid) ss w1) (λ rs. return (r ∷ rs))) add
          ∙ and_then_ap (new_sink_runner p.uid s w) _
              (λ r w1. and_then (make_all (new_sink_runner p.uid) ss w1) (λ rs. add (r ∷ rs)))
              (λ r w1.
                and_then_assoc (make_all (new_sink_runner p.uid) ss w1) (λ rs. return (r ∷ rs))
                  add))

  -- `New(sampleRate, WithPump(pump), WithProcessors(processors...), WithSinks(sinks...))`
  abbrev pub build :
      String
      → ℤ
      → Source C (PumpFunc A C)
      → List (Source C (ProcessFunc A C))
      → List (Source C (SinkFunc A C))
      → Outcome (Making C (NewPipe A C M))
  build uid sample_rate pump processors sinks = do
    pumping ← with_pump pump
    processing ← with_processors processors
    sinking ← with_sinks sinks
    done (new_pipe uid sample_rate (pumping ∷ processing ∷ sinking ∷ []))

  -- What it comes to: the runners of the pump, of the processors and of the sinks, in this order, and
  -- the pipe that has them all.
  abbrev pub built :
      String
      → ℤ
      → Source C (PumpFunc A C)
      → List (Source C (ProcessFunc A C))
      → List (Source C (SinkFunc A C))
      → Making C (NewPipe A C M)
  built uid sample_rate pump processors sinks w = and_then (new_pump_runner uid pump w) (λ r w1.
      and_then (make_all (new_process_runner uid) processors w1) (λ rs w2.
        and_then (make_all (new_sink_runner uid) sinks w2) (λ ss. return (record {
          uid = uid;
          name = "";
          sample_rate = sample_rate;
          pump = some r;
          processors = rs;
          sinks = ss;
          metric = none;
          params = no_params;
          feedback = no_params;
          looping = true;
        }))))

  abbrev pumping : Source C (PumpFunc A C) → PipeOption A C M
  pumping pump p w =
      and_then (new_pump_runner p.uid pump w) (λ r. return (record p { pump = some r }))

  abbrev loop : NewPipe A C M → Making C (NewPipe A C M)
  loop p = return (record p { looping = true })

  sinks_lem :
      (p : NewPipe A C M) (sinks : List (Source C (SinkFunc A C))) (w : World C)
      → and_then (apply_options (add_sinks sinks ∷ []) p w) loop
        ≡ and_then
            (make_all (new_sink_runner p.uid) sinks w)
            (λ ss. return (record p { sinks = p.sinks ++ ss; looping = true }))
  unfolding apply_options
  sinks_lem p sinks w =
      ap (λ x. and_then (and_then x (λ q w. return q w)) loop) (add_sinks_lem sinks p w)
      ∙ go (make_all (new_sink_runner p.uid) sinks w)
    where
      go :
          (x : World C × Made (List (Bound C (SinkFunc A C))))
          → and_then
              (and_then
                (and_then x (λ rs. return (record p { sinks = p.sinks ++ rs })))
                (λ q w. return q w))
              loop
            ≡ and_then x (λ ss. return (record p { sinks = p.sinks ++ ss; looping = true }))
      go (w, made rs) = refl
      go (w, failed err) = refl

  processors_lem :
      (p : NewPipe A C M) (processors : List (Source C (ProcessFunc A C)))
      (sinks : List (Source C (SinkFunc A C))) (w : World C)
      → and_then (apply_options (add_processors processors ∷ add_sinks sinks ∷ []) p w) loop
        ≡ and_then (make_all (new_process_runner p.uid) processors w) (λ rs w1.
          and_then (make_all (new_sink_runner p.uid) sinks w1) (λ ss.
            return (record p {
              processors = p.processors ++ rs;
              sinks = p.sinks ++ ss;
              looping = true;
            })))
  unfolding apply_options
  processors_lem p processors sinks w =
      ap (λ x. and_then (and_then x (apply_options (add_sinks sinks ∷ []))) loop)
        (add_processors_lem processors p w)
      ∙ go (make_all (new_process_runner p.uid) processors w)
    where
      go :
          (x : World C × Made (List (Bound C (ProcessFunc A C))))
          → and_then
              (and_then
                (and_then x (λ rs. return (record p { processors = p.processors ++ rs })))
                (apply_options (add_sinks sinks ∷ [])))
              loop
            ≡ and_then x (λ rs w1. and_then (make_all (new_sink_runner p.uid) sinks w1) (λ ss.
              return (record p {
                processors = p.processors ++ rs;
                sinks = p.sinks ++ ss;
                looping = true;
              })))
      go (w, made rs) = sinks_lem (record p { processors = p.processors ++ rs }) sinks w
      go (w, failed err) = refl

  new_pipe_lem :
      (uid : String) (sample_rate : ℤ) (pump : Source C (PumpFunc A C))
      (processors : List (Source C (ProcessFunc A C))) (sinks : List (Source C (SinkFunc A C)))
      (w : World C)
      → new_pipe uid sample_rate (pumping pump ∷ add_processors processors ∷ add_sinks sinks ∷ []) w
        ≡ built uid sample_rate pump processors sinks w
  unfolding new_pipe apply_options
  new_pipe_lem uid sample_rate pump processors sinks w = go (new_pump_runner uid pump w)
    where
      start : NewPipe A C M
      start = record {
        uid = uid;
        name = "";
        sample_rate = sample_rate;
        pump = none;
        processors = [];
        sinks = [];
        metric = none;
        params = no_params;
        feedback = no_params;
        looping = false;
      }

      go :
          (x : World C × Made (Bound C (PumpFunc A C)))
          → and_then
              (and_then
                (and_then x (λ r. return (record start { pump = some r })))
                (apply_options (add_processors processors ∷ add_sinks sinks ∷ [])))
              loop
            ≡ and_then x (λ r w1.
              and_then (make_all (new_process_runner uid) processors w1) (λ rs w2.
                and_then (make_all (new_sink_runner uid) sinks w2) (λ ss.
                  return
                    (record start { pump = some r; processors = rs; sinks = ss; looping = true }))))
      go (w, made r) = processors_lem (record start { pump = some r }) processors sinks w
      go (w, failed err) = refl

  -- `New` with the options for a pump, processors and sinks panics if a component has no id. Otherwise
  -- it makes the runners of the pump, of the processors and of the sinks one after another, in their
  -- order: the first method of a component that fails ends it with its error, no later one is called
  -- and no loop is started; if none fails the pipe has all of these runners, and its loop is started.
  pub build_lem :
      (uid : String) (sample_rate : ℤ) (pump : Source C (PumpFunc A C))
      (processors : List (Source C (ProcessFunc A C))) (sinks : List (Source C (SinkFunc A C)))
      → build uid sample_rate pump processors sinks ≡ (
          if str_eq pump.component.id "" || (no_id processors || no_id sinks)
          then panic
          else done (built uid sample_rate pump processors sinks))
  unfolding with_pump with_processors with_sinks
  build_lem uid sample_rate pump processors sinks =
      elim (Bool-cases (str_eq pump.component.id "")) [
        | inl empty ↦ rw empty refl
        | inr named ↦ elim (Bool-cases (no_id processors)) [
          | inl empty ↦ rw (named, check_ids_lem processors, empty) refl
          | inr named' ↦ elim (Bool-cases (no_id sinks)) [
            | inl empty ↦
                rw (named, check_ids_lem processors, check_ids_lem sinks, named', empty) refl
            | inr named'' ↦
                rw (named, check_ids_lem processors, check_ids_lem sinks, named', named'')
                  (ap done (fun_ext (new_pipe_lem uid sample_rate pump processors sinks)))
          ]
        ]
      ]
