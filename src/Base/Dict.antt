-- ===== src/Base/Dict.antt =====
-- Go's `map[string]V` as an association list: reading a key, `m[key] = value`, and `delete(m,
-- key)`.
use Prim.Native.String.{String}
use mathlib.Core.Path.{◌≡◌, refl}
use mathlib.Core.Option.{Option, none, some}
use mathlib.Core.List.{List, [], ◌∷◌}
use native.Mathlib.Omega.{arith}
use text.Mathlib.Text.{◌==◌ as str_eq}
use text.Mathlib.TextEquality.{eq_iff}
use phono.Base.Tests.{if◌then◌else◌}

module _ {ℓ} {V : Type ℓ} where
  unfoldable pub delete : String → List (String × V) → List (String × V)
  delete key [] = []
  delete key ((other, old) ∷ rest) =
      let left = delete key rest in if str_eq other key then left else (other, old) ∷ left

  unfoldable pub insert : String → V → List (String × V) → List (String × V)
  insert key value [] = (key, value) ∷ []
  insert key value ((other, old) ∷ rest) =
      if str_eq other key then (other, value) ∷ rest else (other, old) ∷ insert key value rest

  unfoldable pub lookup : String → List (String × V) → Option V
  lookup key [] = none
  lookup key ((other, held) ∷ rest) = if str_eq other key then some held else lookup key rest

  -- Every key is bound once.
  abbrev pub IsMap : List (String × V) → Type ℓ
  IsMap [] = Unit
  IsMap ((key, held) ∷ rest) = (lookup key rest ≡ none) × IsMap rest

  pub lookup-delete :
      (key wanted : String) (m : List (String × V))
      → lookup wanted (delete key m) ≡ (if str_eq key wanted then none else lookup wanted m)
  unfolding delete lookup
  lookup-delete key wanted [] = ground arith
  lookup-delete key wanted ((other, held) ∷ rest) = ground (
    arith,
    lookup-delete key wanted rest,
    eq_iff other key,
    eq_iff other wanted,
    eq_iff key wanted,
  )

  pub lookup-insert :
      (key wanted : String) (value : V) (m : List (String × V))
      → lookup wanted (insert key value m)
        ≡ (if str_eq key wanted then some value else lookup wanted m)
  unfolding insert lookup
  lookup-insert key wanted value [] = refl
  lookup-insert key wanted value ((other, held) ∷ rest) = ground (
    arith,
    lookup-insert key wanted value rest,
    eq_iff other key,
    eq_iff other wanted,
    eq_iff key wanted,
  )

  pub delete-IsMap : (key : String) (m : List (String × V)) → IsMap m → IsMap (delete key m)
  unfolding delete lookup
  delete-IsMap key [] h = tt
  delete-IsMap key ((other, held) ∷ rest) h =
      ground (arith, delete-IsMap key rest h.1, lookup-delete key other rest)

  pub insert-IsMap :
      (key : String) (value : V) (m : List (String × V)) → IsMap m → IsMap (insert key value m)
  unfolding insert lookup
  insert-IsMap key value [] h = (refl, tt)
  insert-IsMap key value ((other, held) ∷ rest) h = ground (
    arith,
    insert-IsMap key value rest h.1,
    lookup-insert key other value rest,
    eq_iff other key,
    eq_iff key other,
  )
