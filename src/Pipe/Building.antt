-- ===== src/Pipe/Building.antt =====
-- pipe/pipe.go: `New` with its options, and pipe/runner.go: the runners that they make. The methods
-- `Pump`, `Process` and `Sink` of a component, which give the function that runs, change the state of
-- the components and may fail. A metric is of any type.
pub mod Options
pub mod Wiring
use text.Mathlib.Text.{◌==◌ as str_eq}
use phono.Base.{
  ℕ, zero, suc, Bool, true, false, List, [], ◌∷◌, ◌++◌, Option, none, some, String, if◌then◌else◌,
}
use phono.Base.Int.{ℤ}
use phono.Base.Outcome.{Outcome, done, panic, ◌>>=◌}
use phono.Pipe.Params.{World, Params, no_params}
use phono.Pipe.Runner.{Failure, Hooks, Component, bind_hooks}
use phono.Pipe.Runner.PumpRunner.{PumpFunc}
use phono.Pipe.Runner.ProcessRunner.{ProcessFunc}
use phono.Pipe.Runner.SinkRunner.{SinkFunc}

-- A value, or the error that is returned in its place.
pub data Made (X : Type 0) : Type 0 where
  made : X → Made X
  failed : Failure → Made X

-- A component with the method that gives its function.
pub record Source (C F : Type 0) : Type 0 where
  pub component : Component C
  pub make : String → World C → World C × Made F

-- `pumpRunner`, `processRunner` and `sinkRunner`, before they run.
pub record Bound (C F : Type 0) : Type 0 where
  pub component : Component C
  pub fn : F
  pub hooks : Hooks C

-- `Pipe`, as `New` makes it; `looping` says that its loop was started.
pub record NewPipe (A C M : Type 0) : Type 0 where
  pub uid : String
  pub name : String
  pub sample_rate : ℤ
  pub pump : Option (Bound C (PumpFunc A C))
  pub processors : List (Bound C (ProcessFunc A C))
  pub sinks : List (Bound C (SinkFunc A C))
  pub metric : Option M
  pub params : Params C
  pub feedback : Params C
  pub looping : Bool

-- What may fail and changes the components.
abbrev pub Making : Type 0 → Type 0 → Type 0
Making C X = World C → World C × Made X

module _ {C : Type 0} where
  -- `if err != nil { return err }`
  abbrev pub and_then : {X Y : Type 0} → World C × Made X → (X → Making C Y) → World C × Made Y
  and_then (w, failed err) f = (w, failed err)
  and_then (w, made x) f = f x w

  abbrev pub return : {X : Type 0} → X → Making C X
  return x w = (w, made x)

  -- The panic for an empty id, in a loop over components.
  unfoldable pub check_ids : {F : Type 0} → List (Source C F) → Outcome (Unit {0})
  check_ids [] = done tt
  check_ids (s ∷ ss) = let rest = check_ids ss in if str_eq s.component.id "" then panic else rest

module _ {A C : Type 0} where
  unfoldable pub new_pump_runner :
      String → Source C (PumpFunc A C) → Making C (Bound C (PumpFunc A C))
  unfolding bind_hooks
  new_pump_runner source_id p w =
      and_then (p.make source_id w)
        (λ fn. return (record { component = p.component; fn = fn; hooks = bind_hooks p.component }))

  unfoldable pub new_process_runner :
      String → Source C (ProcessFunc A C) → Making C (Bound C (ProcessFunc A C))
  unfolding bind_hooks
  new_process_runner source_id p w =
      and_then (p.make source_id w)
        (λ fn. return (record { component = p.component; fn = fn; hooks = bind_hooks p.component }))

  unfoldable pub new_sink_runner :
      String → Source C (SinkFunc A C) → Making C (Bound C (SinkFunc A C))
  unfolding bind_hooks
  new_sink_runner source_id s w =
      and_then (s.make source_id w)
        (λ fn. return (record { component = s.component; fn = fn; hooks = bind_hooks s.component }))

-- `Option`: it changes the pipe or returns an error.
abbrev pub PipeOption : Type 0 → Type 0 → Type 0 → Type 0
PipeOption A C M = NewPipe A C M → Making C (NewPipe A C M)

module _ {A C M : Type 0} where
  unfoldable pub with_name : String → PipeOption A C M
  with_name n p = return (record p { name = n })

  unfoldable pub with_metric : M → PipeOption A C M
  with_metric m p = return (record p { metric = some m })

  unfoldable pub with_pump : Source C (PumpFunc A C) → Outcome (PipeOption A C M)
  unfolding new_pump_runner
  with_pump pump =
      if str_eq pump.component.id ""
      then panic
      else done (λ p w.
        and_then (new_pump_runner p.uid pump w) (λ r. return (record p { pump = some r })))

  -- The loop of the option that `WithProcessors` returns.
  unfoldable pub add_processors : List (Source C (ProcessFunc A C)) → PipeOption A C M
  unfolding new_process_runner
  add_processors [] p w = return p w
  add_processors (s ∷ ss) p w =
      and_then (new_process_runner p.uid s w)
        (λ r. add_processors ss (record p { processors = p.processors ++ r ∷ [] }))

  unfoldable pub with_processors : List (Source C (ProcessFunc A C)) → Outcome (PipeOption A C M)
  with_processors ss = do _ ← check_ids ss; done (add_processors ss)

  -- The loop of the option that `WithSinks` returns.
  unfoldable pub add_sinks : List (Source C (SinkFunc A C)) → PipeOption A C M
  unfolding new_sink_runner
  add_sinks [] p w = return p w
  add_sinks (s ∷ ss) p w =
      and_then (new_sink_runner p.uid s w)
        (λ r. add_sinks ss (record p { sinks = p.sinks ++ r ∷ [] }))

  unfoldable pub with_sinks : List (Source C (SinkFunc A C)) → Outcome (PipeOption A C M)
  with_sinks ss = do _ ← check_ids ss; done (add_sinks ss)

  -- The loop of `New`.
  unfoldable pub apply_options : List (PipeOption A C M) → PipeOption A C M
  apply_options [] p w = return p w
  apply_options (option ∷ options) p w = and_then (option p w) (apply_options options)

  -- `New`, with the id that `NewUID` makes.
  unfoldable pub new_pipe : String → ℤ → List (PipeOption A C M) → Making C (NewPipe A C M)
  new_pipe uid sample_rate options w =
      and_then
        (apply_options options
          (record {
            uid = uid;
            name = "";
            sample_rate = sample_rate;
            pump = none;
            processors = [];
            sinks = [];
            metric = none;
            params = no_params;
            feedback = no_params;
            looping = false;
          })
          w)
        (λ p. return (record p { looping = true }))
