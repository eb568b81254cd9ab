-- ===== src/Pipe/Params.antt =====
-- pipe/pipe.go: `params`, the mutators of components by the components' ids, and phono.go: `Param`,
-- `ReceivedBy`. A mutator is a closure over a component; here it is a function on the state of all
-- components. `none` is the nil map, which may be read and not written. Ranging over a map takes
-- the entries in the order of the list; the laws hold for every order.
pub mod Laws
use phono.Base.{
  ℕ, zero, suc, ◌-◌, ◌≡◌, Bool, true, false, List, [], ◌∷◌, ◌++◌, Option, none, some, String, ◌==◌,
  if◌then◌else◌,
}
use phono.Base.Int.{ℤ, pos}
use phono.Base.Dict.{lookup, insert, delete}
use phono.Base.Outcome.{Outcome, done, panic, blocked, ◌>>=◌}

-- The state of the components, and of the wait group that `ReceivedBy` closes over. `negative`
-- records a call of `Done` at zero, on which Go panics.
pub record World (C : Type 0) : Type 0 where
  pub components : C
  pub waiting : ℕ
  pub negative : Bool

abbrev pub ParamFunc : Type 0 → Type 0
ParamFunc C = World C → World C

pub record Param (C : Type 0) : Type 0 where
  pub id : String
  pub apply : ParamFunc C
  pub at : ℤ  -- int64, sample position
  pub at_time : ℤ  -- time.Duration

abbrev pub Params : Type 0 → Type 0
Params C = Option (List (String × List (ParamFunc C)))

module _ {C : Type 0} where
  -- `make(map[string][]phono.ParamFunc)`
  abbrev pub no_params : Params C
  no_params = some []

  abbrev pub entries : Params C → List (String × List (ParamFunc C))
  entries none = []
  entries (some m) = m

  -- `wg.Done()`
  unfoldable pub wait_done : ParamFunc C
  wait_done w =
      if w.waiting == 0 then record w { negative = true } else record w { waiting = w.waiting - 1 }

  -- `var wg sync.WaitGroup` and `wg.Add(n)`
  unfoldable pub wait_add : ℕ → World C → World C
  wait_add n w = record w { waiting = n; negative = false }

  -- `wg.Wait()`, when all has been done that is ever done.
  unfoldable pub wait_all : World C → Outcome (World C)
  wait_all w = if w.negative then panic else (if w.waiting == 0 then done w else blocked)

  -- `ReceivedBy`
  unfoldable pub received_by : String → Param C
  unfolding wait_done
  received_by id = record { id = id; apply = wait_done; at = pos 0; at_time = pos 0 }

  -- `p[id] = fs`
  unfoldable pub assign : Params C → String → List (ParamFunc C) → Outcome (Params C)
  assign none id fs = panic
  assign (some m) id fs = done (some (insert id fs m))

  -- The value of a key, or the empty slice.
  abbrev pub or_empty : Option (List (ParamFunc C)) → List (ParamFunc C)
  or_empty none = []
  or_empty (some fs) = fs

  unfoldable pub add : Params C → List (Param C) → Outcome (Params C)
  add p [] = done p
  add p (x ∷ xs) = do
    let private = or_empty (lookup x.id (entries p))
    p' ← assign p x.id (private ++ x.apply ∷ [])
    add p' xs

  unfoldable pub apply_all : List (ParamFunc C) → World C → World C
  apply_all [] w = w
  apply_all (f ∷ fs) w = apply_all fs (f w)

  unfoldable pub apply_to : Params C → String → World C → Params C × World C
  apply_to none id w = (none, w)
  apply_to (some m) id w = elim (lookup id m) [
    | none ↦ (some m, w)
    | some fs ↦ (some (delete id m), apply_all fs w)
  ]

  -- What `merge` stores: the new values, behind the old ones where the key is there.
  abbrev pub extended : Option (List (ParamFunc C)) → List (ParamFunc C) → List (ParamFunc C)
  extended none new_values = new_values
  extended (some old) new_values = old ++ new_values

  -- The loop of `merge`, over the entries of the source.
  unfoldable pub merge_entries : Params C → List (String × List (ParamFunc C)) → Outcome (Params C)
  merge_entries p [] = done p
  merge_entries p ((new_key, new_values) ∷ source) = do
    p' ← assign p new_key (extended (lookup new_key (entries p)) new_values)
    merge_entries p' source

  unfoldable pub merge : Params C → Params C → Outcome (Params C)
  merge p source = merge_entries p (entries source)

  unfoldable pub detach : Params C → String → Params C
  detach none id = none
  detach (some m) id = elim (lookup id m) [ none ↦ none | some v ↦ some ((id, v) ∷ []) ]
