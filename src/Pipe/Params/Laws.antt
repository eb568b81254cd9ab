-- ===== src/Pipe/Params/Laws.antt =====
-- pipe/pipe.go: what the operations on `params` do to the mutators that are held for an id.
use text.Mathlib.Text.{◌==◌ as str_eq}
use text.Mathlib.TextEquality.{eq_iff}
use mathlib.Core.List.{append_assoc, append-nil}
use phono.Base.{
  ◌≡◌, ◌≢◌, refl, sym, ap, ◌∙◌, List, [], ◌∷◌, ◌++◌, none, some, String, arith, if◌then◌else◌,
  Option-cases, inl, inr,
}
use phono.Base.Dict.{
  lookup, insert, IsMap, lookup-insert, lookup-delete, insert-IsMap, delete-IsMap,
}
use phono.Base.Outcome.{done}
use phono.Pipe.Params.{
  World, ParamFunc, Param, Params, entries, or_empty, extended, assign, add, apply_all, apply_to,
  merge_entries, merge, detach,
}

pub lookup-nil {ℓ} : {V : Type ℓ} (id : String) → lookup {V = V} id [] ≡ none
unfolding lookup
lookup-nil id = refl

module _ {C : Type 0} where
  -- The mutators that a set holds for an id, in order.
  abbrev pub funcs : String → Params C → List (ParamFunc C)
  funcs id p = or_empty (lookup id (entries p))

  -- Those of a list of parameters.
  abbrev pub funcs_of : String → List (Param C) → List (ParamFunc C)
  funcs_of id [] = []
  funcs_of id (x ∷ xs) =
      let rest = funcs_of id xs in if str_eq x.id id then x.apply ∷ rest else rest

  -- A set that exists and has each key once.
  abbrev pub IsSound : Params C → Type 0
  IsSound none = ⊥
  IsSound (some m) = IsMap m

  funcs-insert :
      (id j : String) (fs : List (ParamFunc C)) (m : List (String × List (ParamFunc C)))
      → funcs j (some (insert id fs m)) ≡ (if str_eq id j then fs else funcs j (some m))
  funcs-insert id j fs m = ground (arith, lookup-insert id j fs m)

  funcs-push :
      (x : Param C) (id : String) (m : List (String × List (ParamFunc C)))
      (rest : List (ParamFunc C))
      → funcs id (some (insert x.id (funcs x.id (some m) ++ x.apply ∷ []) m)) ++ rest
        ≡ funcs id (some m) ++ (if str_eq x.id id then x.apply ∷ rest else rest)
  funcs-push x id m rest = ground (
    arith,
    funcs-insert x.id id (funcs x.id (some m) ++ x.apply ∷ []) m,
    eq_iff x.id id,
    append_assoc (funcs id (some m)) (x.apply ∷ []) rest,
  )

  -- `add` keeps what was held, and puts the new mutators behind it in their order.
  pub add_lem :
      (p : Params C) (xs : List (Param C))
      → IsSound p
      → (q : Params C) × (add p xs ≡ done q)
        × IsSound q
        × ((id : String) → funcs id q ≡ funcs id p ++ funcs_of id xs)
  unfolding add assign
  add_lem none xs h = absurd h
  add_lem (some m) [] h = (some m, refl, h, λ id. sym (append-nil (funcs id (some m))))
  add_lem (some m) (x ∷ xs) h =
      let (q, e, s, f) =
        add_lem (some (insert x.id (funcs x.id (some m) ++ x.apply ∷ []) m)) xs
          (insert-IsMap x.id (funcs x.id (some m) ++ x.apply ∷ []) m h) in
      (q, e, s, λ id. f id ∙ funcs-push x id m (funcs_of id xs))

  funcs-extend :
      (k id : String) (vs : List (ParamFunc C)) (m : List (String × List (ParamFunc C)))
      → funcs id (some (insert k (extended (lookup k m) vs) m))
        ≡ funcs id (some m) ++ (if str_eq k id then vs else [])
  funcs-extend k id vs m = ground (
    arith,
    funcs-insert k id (extended (lookup k m) vs) m,
    eq_iff k id,
    append-nil (funcs id (some m)),
  )

  -- The values that a list of entries holds for an id, over all entries.
  abbrev gathered : String → List (String × List (ParamFunc C)) → List (ParamFunc C)
  gathered id [] = []
  gathered id ((k, vs) ∷ m) = (if str_eq k id then vs else []) ++ gathered id m

  gathered_missing :
      (id : String) (m : List (String × List (ParamFunc C)))
      → lookup id m ≡ none
      → gathered id m ≡ []
  unfolding lookup
  gathered_missing id [] h = refl
  gathered_missing id ((k, vs) ∷ m) h = ground (arith, gathered_missing id m)

  gathered-funcs :
      (id : String) (m : List (String × List (ParamFunc C)))
      → IsMap m
      → gathered id m ≡ funcs id (some m)
  unfolding lookup
  gathered-funcs id [] h = refl
  gathered-funcs id ((k, vs) ∷ m) h =
      ground (arith, eq_iff k id, gathered_missing k m h.0, gathered-funcs id m h.1, append-nil vs)

  merge_entries_lem :
      (m source : List (String × List (ParamFunc C)))
      → IsMap m
      → (q : Params C) × (merge_entries (some m) source ≡ done q)
        × IsSound q
        × ((id : String) → funcs id q ≡ funcs id (some m) ++ gathered id source)
  unfolding merge_entries assign
  merge_entries_lem m [] h = (some m, refl, h, λ id. sym (append-nil (funcs id (some m))))
  merge_entries_lem m ((k, vs) ∷ source) h =
      let m' = insert k (extended (lookup k m) vs) m in
      let (q, e, s, f) =
        merge_entries_lem m' source (insert-IsMap k (extended (lookup k m) vs) m h) in
      (
        q,
        e,
        s,
        λ id.
            f id
            ∙ ap (λ t. t ++ gathered id source) (funcs-extend k id vs m)
            ∙ append_assoc (funcs id (some m)) (if str_eq k id then vs else [])
                (gathered id source),
      )

  -- `merge` never panics on a set that exists. It keeps what was held for an id and puts what the
  -- source holds for it behind, in whatever order the source's entries are visited.
  pub merge_lem :
      (p source : Params C)
      → IsSound p
      → IsMap (entries source)
      → (q : Params C) × (merge p source ≡ done q)
        × IsSound q
        × ((id : String) → funcs id q ≡ funcs id p ++ funcs id source)
  unfolding merge
  merge_lem none source h k = absurd h
  merge_lem (some m) source h k =
      let (q, e, s, f) = merge_entries_lem m (entries source) h in
      (q, e, s, λ id. f id ∙ ap (◌++◌ (funcs id (some m))) (gathered-entries id source k))
    where
      gathered-entries :
          (id : String) (s : Params C) → IsMap (entries s) → gathered id (entries s) ≡ funcs id s
      gathered-entries id none i = gathered-funcs id [] tt
      gathered-entries id (some n) i = gathered-funcs id n i

  -- `applyTo` runs the mutators held for the id, in order, and no other; afterwards it holds none
  -- for that id, and for every other id what it held.
  pub apply_to_lem :
      (p : Params C) (id : String) (w : World C)
      → IsMap (entries p)
      → ((apply_to p id w).1 ≡ apply_all (funcs id p) w)
        × (funcs id (apply_to p id w).0 ≡ [])
        × ((j : String) → id ≢ j → funcs j (apply_to p id w).0 ≡ funcs j p)
        × IsMap (entries (apply_to p id w).0)
  unfolding apply_to apply_all
  apply_to_lem none id w h = (rw (lookup-nil id), rw (lookup-nil id), λ j n. refl, tt)
  apply_to_lem (some m) id w h = elim (Option-cases (lookup id m)) [
    | inl e ↦ rw (e, apply_to) (refl, rw e, λ j n. refl, h)
    | inr (fs, e) ↦
        rw (e, apply_to)
          (
            refl,
            ground (arith, lookup-delete id id m, eq_iff id id),
            λ j n. ground (arith, lookup-delete id j m, eq_iff id j),
            delete-IsMap id m h,
          )
  ]

  -- `detach` gives one id its mutators, and nothing else; it takes nothing away.
  pub detach_lem :
      (p : Params C) (id j : String)
      → funcs j (detach p id) ≡ (if str_eq id j then funcs j p else [])
  unfolding detach lookup
  detach_lem none id j = ground arith
  detach_lem (some m) id j = ground (arith, eq_iff id j)
