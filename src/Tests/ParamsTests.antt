-- ===== src/Tests/ParamsTests.antt =====
-- pipe/pipe_internal_test.go: parameter sets with mutators of a number.
use phono.Base.{ℕ, ◌+◌, ◌*◌, ◌≡◌, refl, false, [], ◌∷◌, ◌++◌, some, String}
use phono.Base.Int.{pos}
use phono.Base.Dict.{lookup}
use phono.Base.Outcome.{done}
use phono.Pipe.Params.{World, ParamFunc, Param, Params, merge}
use phono.Pipe.Params.Laws.{funcs, IsSound, merge_lem}

abbrev double : ParamFunc ℕ
double w = record w { components = w.components * 2 }

abbrev bump : ParamFunc ℕ
bump w = record w { components = w.components + 1 }

abbrev param : String → ParamFunc ℕ → Param ℕ
param id f = record { id = id; apply = f; at = pos 0; at_time = pos 0 }

abbrev held : Params ℕ
held = some (("pump", double ∷ []) ∷ [])

abbrev world : World ℕ
world = record { components = 5; waiting = 0; negative = false }

merge_held :
    (q : Params ℕ) × (merge held (some (("sink", bump ∷ []) ∷ [])) ≡ done q)
    × IsSound q
    × ((id : String) → funcs id q ≡ funcs id held ++ funcs id (some (("sink", bump ∷ []) ∷ [])))
unfolding lookup
merge_held = merge_lem held (some (("sink", bump ∷ []) ∷ [])) (refl, tt) (refl, tt)
