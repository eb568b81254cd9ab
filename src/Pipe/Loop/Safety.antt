-- ===== src/Pipe/Loop/Safety.antt =====
-- pipe/state.go: every round of the loop returns, and keeps the invariant.
use phono.Base.{◌≡◌, refl, true, List, [], String, All, sym, length}
use phono.Base.Dict.{IsMap}
use phono.Pipe.Params.{World, Params, no_params, entries}
use phono.Pipe.Params.Laws.{funcs, lookup-nil}
use mathlib.Core.Path.{subst}
use phono.Pipe.Loop.Confirmed.{KeepsGroup, IsQuiet, IsAmong, IsDistinct}
use phono.Pipe.Message.{Pipe}
use phono.Pipe.Machine.{State, pausing, Machine}
use phono.Pipe.Loop.{Input, measured, provided, new_machine}
use phono.Pipe.Loop.Invariant.{Inv}

-- A pipe that can be run: it has a pump, and no two sinks have the same id.
abbrev pub IsWired : {C : Type 0} → Pipe C → Type 0
IsWired p = (p.has_pump ≡ true) × IsDistinct p.sinks

-- The message of a pausing pipe is confirmed by every one of these sinks, once. The parameters of a
-- `measure` event are a map, and they leave the wait group alone.
abbrev pub IsInput : {C : Type 0} → List String → State → Input C → Type 0
IsInput sinks pausing (provided confirmed) =
    IsDistinct confirmed
    × All (λ id. IsAmong id sinks) confirmed
    × (length confirmed ≡ length sinks)
IsInput sinks s (measured ps ids) = IsMap (entries ps) × IsQuiet ps
IsInput sinks s _ = Unit

module _ {C : Type 0} where
  lookup_empty : (id : String) → funcs {C = C} id no_params ≡ []
  lookup_empty id = rw (lookup-nil id)

module _ {A C : Type 0} where
  pub new_machine-Inv : (p : Pipe C) (w : World C) → Inv (new_machine {A = A} p w)
  unfolding new_machine
  new_machine-Inv p w = record {
    fits = refl;
    books = record { waiting = tt; answered = λ k c e. absurd (cc) };
    params = tt;
    feedback = (tt, λ id. subst (All KeepsGroup) (sym (lookup_empty id)) tt);
  }
