-- ===== src/Pipe/Building/Wiring.antt =====
-- pipe/pipe.go: `start` and the first part of `broadcastToSinks`, which start the runners of a pipe with
-- the channels between them. A channel of messages is known by the runner that sends on it.
use phono.Base.{
  ℕ, suc, ◌≡◌, refl, ap, ap₂, List, [], ◌∷◌, ◌++◌, Option, none, some, String, length, map,
}
use phono.Base.Outcome.{Outcome, done, panic}
use phono.Pipe.MergeErrors.{Merge, merge_errors}
use phono.Pipe.Runner.{Failure}
use phono.Pipe.Runner.PumpRunner.{PumpFunc}
use phono.Pipe.Runner.ProcessRunner.{ProcessFunc}
use phono.Pipe.Runner.SinkRunner.{SinkFunc}
use phono.Pipe.Building.{Bound, NewPipe}

pub data Channel : Type 0 where
  pump_out : Channel
  process_out : ℕ → Channel  -- of the processor with this number
  broadcast : ℕ → Channel  -- for the sink with this number

-- A call of `run`: the id of the component, and the channels of messages.
pub record Start : Type 0 where
  pub id : String
  pub input : Option Channel
  pub out : Option Channel

-- The goroutines of a pipe that was started, the channel that the broadcast reads, the ids of the
-- components whose error channels are merged, and the merge.
pub record Started : Type 0 where
  pub runners : List Start
  pub broadcast_input : Channel
  pub errc_list : List String
  pub errc : Merge Failure

abbrev pub ids : List Start → List String
ids runs = map (λ (r : Start). r.id) runs

module _ {A C : Type 0} where
  -- The loop over the processors, from the one with number i on.
  unfoldable pub start_processors :
      ℕ → Channel → List (Bound C (ProcessFunc A C)) → List Start × Channel
  start_processors i out [] = ([], out)
  start_processors i out (proc ∷ procs) =
      let (rest, last) = start_processors (suc i) (process_out i) procs in
      (record { id = proc.component.id; input = some out; out = some (process_out i) } ∷ rest, last)

  -- The loop over the sinks, from the one with number i on.
  unfoldable pub start_sinks : ℕ → List (Bound C (SinkFunc A C)) → List Start
  start_sinks i [] = []
  start_sinks i (s ∷ ss) =
      record { id = s.component.id; input = some (broadcast i); out = none }
      ∷ start_sinks (suc i) ss

module _ {A C M : Type 0} where
  -- `start`; a pipe without a pump panics.
  unfoldable pub start : NewPipe A C M → Outcome Started
  unfolding start_processors start_sinks
  start p = elim p.pump [
    | none ↦ panic
    | some pump ↦
        let first : Start = record { id = pump.component.id; input = none; out = some pump_out } in
        let (middle, out) = start_processors 0 pump_out p.processors in
        let last = start_sinks 0 p.sinks in
        let errc_list = first.id ∷ (ids middle ++ ids last) in
        done (record {
          runners = first ∷ (middle ++ last);
          broadcast_input = out;
          errc_list = errc_list;
          errc = merge_errors (length errc_list);
        })
  ]

-- Every runner reads what the one before it sends: the first of them reads `a`, and the last sends on
-- `b`.
abbrev pub Chained : Channel → List Start → Channel → Type 0
Chained a [] b = a ≡ b
Chained a (r ∷ rs) b = (r.input ≡ some a) × (q : Channel) × (r.out ≡ some q) × Chained q rs b

-- Every sink has a broadcast of its own, from the one with number i on.
abbrev pub Fed : ℕ → List Start → Type 0
Fed i [] = Unit
Fed i (r ∷ rs) = (r.input ≡ some (broadcast i)) × (r.out ≡ none) × Fed (suc i) rs

module _ {A C : Type 0} where
  processors_lem :
      (i : ℕ) (a : Channel) (procs : List (Bound C (ProcessFunc A C)))
      → Chained a (start_processors i a procs).0 (start_processors i a procs).1
        × (ids (start_processors i a procs).0 ≡ map (λ r. r.component.id) procs)
  unfolding start_processors
  processors_lem i a [] = (refl, refl)
  processors_lem i a (proc ∷ procs) =
      let (chained, same) = processors_lem (suc i) (process_out i) procs in
      ((refl, process_out i, refl, chained), ap (◌∷◌ proc.component.id) same)

  sinks_lem :
      (i : ℕ) (sinks : List (Bound C (SinkFunc A C)))
      → Fed i (start_sinks i sinks) × (ids (start_sinks i sinks) ≡ map (λ r. r.component.id) sinks)
  unfolding start_sinks
  sinks_lem i [] = (tt, refl)
  sinks_lem i (s ∷ ss) =
      let (fed, same) = sinks_lem (suc i) ss in ((refl, refl, fed), ap (◌∷◌ s.component.id) same)

module _ {A C M : Type 0} where
  -- A pipe that has a pump starts it, then its processors, then its sinks. The pump reads no channel of
  -- messages; every processor reads what the runner before it sends, the broadcast reads what the last
  -- one of them sends, and every sink reads a broadcast of its own. The error channels of all
  -- components, in this order, are merged, with room for one error of each of them.
  pub start-Chained :
      (p : NewPipe A C M) (pump : Bound C (PumpFunc A C))
      → p.pump ≡ some pump
      → (s : Started) × (first : Start) × (middle : List Start) × (last : List Start) × (start p
          ≡ done s)
        × (s.runners ≡ first ∷ (middle ++ last))
        × (first.input ≡ none)
        × Chained pump_out middle s.broadcast_input
        × Fed 0 last
        × (s.errc_list
            ≡ pump.component.id
              ∷ (map (λ r. r.component.id) p.processors ++ map (λ r. r.component.id) p.sinks))
        × (first.out ≡ some pump_out)
        × (s.errc ≡ merge_errors (length s.errc_list))
  unfolding start
  start-Chained p pump is =
      let (chained, same) = processors_lem 0 pump_out p.processors in
      let (fed, same') = sinks_lem 0 p.sinks in
      let first : Start = record { id = pump.component.id; input = none; out = some pump_out } in
      let middle = (start_processors 0 pump_out p.processors).0 in
      let last = start_sinks 0 p.sinks in
      (
        record {
          runners = first ∷ (middle ++ last);
          broadcast_input = (start_processors 0 pump_out p.processors).1;
          errc_list = pump.component.id ∷ (ids middle ++ ids last);
          errc = merge_errors (length (pump.component.id ∷ (ids middle ++ ids last)));
        },
        first,
        middle,
        last,
        rw is refl,
        refl,
        refl,
        chained,
        fed,
        ap (◌∷◌ pump.component.id) (ap₂ ◌++◌ same same'),
        refl,
        refl,
      )
