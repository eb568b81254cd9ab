-- ===== src/Pipe/Loop/Sessions.antt =====
-- pipe/state.go: whole runs of the loop, and what the callers of the methods get.
use phono.Base.{Bool, true, false, List, [], ◌∷◌, Option, none, some, String}
use phono.Pipe.Message.{Pipe}
use phono.Pipe.Machine.{State, Machine}
use phono.Pipe.Loop.{Input, call_run, call_pause, call_resume, call_close, call_push}
use phono.Pipe.Loop.Safety.{IsInput}
use phono.Pipe.Loop.Diagram.{next_state}

-- Anything but `Close`, under the conditions of a round.
abbrev pub IsOpen : {C : Type 0} → List String → State → Input C → Type 0
IsOpen sinks s (call_close received behind) = ⊥
IsOpen sinks s i = IsInput sinks s i

abbrev pub is_some {ℓ} : {A : Type ℓ} → Option A → Bool
is_some none = false
is_some (some a) = true

abbrev pub or_else {ℓ} : {A : Type ℓ} → A → Option A → A
or_else a none = a
or_else a (some b) = b

-- Such inputs one after another, from a state on.
abbrev pub IsOpenRun : {C : Type 0} → List String → State → List (Input C) → Type 0
IsOpenRun sinks s [] = Unit
IsOpenRun sinks s (i ∷ inputs) =
    IsOpen sinks s i × IsOpenRun sinks (or_else s (next_state s i)) inputs

-- A method that sends an event.
abbrev pub IsCall : {C : Type 0} → Input C → Type 0
IsCall call_run = Unit
IsCall call_pause = Unit
IsCall call_resume = Unit
IsCall (call_close received behind) = Unit
IsCall (call_push (x ∷ xs)) = Unit
IsCall _ = ⊥
