-- ===== src/Tests/PcmTests.antt =====
-- phono_test.go: `TestInts` and `TestReadInts`, with whole numbers as samples.
use phono.Base.{ℕ, ◌*◌, ◌≡◌, refl, List, [], ◌∷◌, map, some, arith, length}
use phono.Base.Int.{ℤ, pos, pos_part}
use phono.Base.Outcome.{done, panic}
use phono.Pcm.{store, index, write_frame, write_frames, ints, read_ints}
use phono.Pcm.RoundTrip.{read_ints-ints}

abbrev two_channels : List (List ℕ)
two_channels = (1 ∷ 1 ∷ 1 ∷ []) ∷ (2 ∷ 2 ∷ 2 ∷ []) ∷ []

interleaved :
    ints pos (some two_channels) ≡ done (some (pos 1 ∷ pos 2 ∷ pos 1 ∷ pos 2 ∷ pos 1 ∷ pos 2 ∷ []))
unfolding ints write_frames write_frame store index
interleaved = refl

no_channel : ints pos (some []) ≡ panic
unfolding ints
no_channel = refl

read_ints-ints_example :
    (data' : List ℤ) × (ints pos (some two_channels) ≡ done (some data'))
    × (length data' ≡ 3 * 2)
    × (read_ints pos_part (some ([] ∷ [] ∷ [])) data'
        ≡ some (map (map (λ x. pos_part (pos x))) two_channels))
read_ints-ints_example =
    read_ints-ints pos pos_part (1 ∷ 1 ∷ 1 ∷ []) ((2 ∷ 2 ∷ 2 ∷ []) ∷ []) ([] ∷ [] ∷ [])
      (omega arith) refl
