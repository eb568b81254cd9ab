-- ===== src/Tests/BufferTests.antt =====
-- phono_test.go: `TestBuffer` and `TestSliceBuffer`, with numbers as samples.
use phono.Base.{ℕ, ◌+◌, ◌≡◌, refl, inl, List, [], ◌∷◌, map, none, some, arith, length, take, drop}
use phono.Base.Int.{pos, add64}
use phono.Base.Outcome.{done}
use phono.Buffer.{append, slice, slice_channels, slice_expr, IsRect}
use phono.Buffer.Appending.{append-parts}
use phono.Buffer.Slicing.{slice_in, slice_outside}

abbrev ten : List ℕ
ten = 0 ∷ 1 ∷ 2 ∷ 3 ∷ 4 ∷ 5 ∷ 6 ∷ 7 ∷ 8 ∷ 9 ∷ []

abbrev stereo : List (List ℕ)
stereo = ten ∷ ten ∷ []

slice_middle : slice (some stereo) (pos 1) (pos 2) ≡ done (some ((1 ∷ 2 ∷ []) ∷ (1 ∷ 2 ∷ []) ∷ []))
unfolding slice slice_channels slice_expr add64
slice_middle = refl

slice_tail :
    slice (some stereo) (pos 7) (pos 4) ≡ done (some ((7 ∷ 8 ∷ 9 ∷ []) ∷ (7 ∷ 8 ∷ 9 ∷ []) ∷ []))
slice_tail = slice_in stereo 7 4 (omega arith) (omega arith) (omega arith)

slice_outside_example : slice (some stereo) (pos 10) (pos 1) ≡ done none
slice_outside_example = slice_outside (some stereo) (pos 10) (pos 1) (inl (omega arith))

append-parts_example :
    (r : List (List ℕ)) × (append {A = ℕ} (some ((1 ∷ []) ∷ [])) (some ((2 ∷ 3 ∷ []) ∷ []))
      ≡ done (some r))
    × IsRect (1 + 2) r
    × (length r ≡ 1)
    × (map (take 1) r ≡ (1 ∷ []) ∷ [])
    × (map (drop 1) r ≡ (2 ∷ 3 ∷ []) ∷ [])
append-parts_example =
    append-parts {A = ℕ} 1 2 ((1 ∷ []) ∷ []) ((2 ∷ 3 ∷ []) ∷ []) (omega arith) (omega arith) refl
