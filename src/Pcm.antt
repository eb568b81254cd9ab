-- ===== src/Pcm.antt =====
-- phono.go: `Ints` and `ReadInts`, between a buffer and interleaved PCM data. The conversions of
-- one sample, `int(x * 0x7fff)` and `float64(n) / 0x8000`, are floating point and stand as
-- parameters. An index of the data does not wrap: it stays below the length of a slice plus the
-- channel count.
pub mod Interleaving
pub mod RoundTrip
use phono.Base.{
  ℕ, zero, suc, ◌+◌, ◌*◌, ◌≡◌, List, [], ◌∷◌, Option, none, some, length, get_elem?, set, replicate,
  ltb, if◌then◌else◌,
}
use phono.Base.Int.{ℤ, pos}
use phono.Base.Outcome.{Outcome, done, panic, ◌>>=◌}
use phono.Buffer.{Buffer, size}

-- `xs[k] = v`
unfoldable pub store {ℓ} : {B : Type ℓ} → List B → ℕ → B → Outcome (List B)
store ints k v = if ltb k (length ints) then done (set ints k v) else panic

-- `xs[i]`
unfoldable pub index {ℓ} : {A : Type ℓ} → List A → ℕ → Outcome A
index xs i = elim (get_elem? xs i) [ none ↦ panic | some x ↦ done x ]

module _ {ℓ κ} {A : Type ℓ} {B : Type κ} (convert : A → B) where
  -- The inner loop of `Ints`, over the channels from number j on.
  unfoldable pub write_frame : ℕ → ℕ → ℕ → List (List A) → List B → Outcome (List B)
  write_frame nc i j [] ints = done ints
  write_frame nc i j (c ∷ cs) ints = do
    x ← index c i
    ints' ← store ints (i * nc + j) (convert x)
    write_frame nc i (suc j) cs ints'

  -- The outer loop, with the rounds that are left and the position i.
  unfoldable pub write_frames : ℕ → List (List A) → ℕ → ℕ → List B → Outcome (List B)
  write_frames nc b zero i ints = done ints
  write_frames nc b (suc n) i ints = do
    ints' ← write_frame nc i 0 b ints
    write_frames nc b n (suc i) ints'

module _ {ℓ} {A : Type ℓ} (to_int : A → ℤ) where
  -- `Ints`. A nil buffer gives nil data; one with no channel panics at `b[0]`.
  unfoldable pub ints : Buffer A → Outcome (Option (List ℤ))
  ints none = done none
  ints (some []) = panic
  ints (some (c ∷ cs)) = do
    let b = c ∷ cs
    let blank = replicate (size (some b) * length b) (pos 0)
    data' ← write_frames to_int (length b) b (length c) 0 blank
    done (some data')

module _ {ℓ} {A : Type ℓ} (of_int : ℤ → A) where
  -- The inner loop of `ReadInts`: every nc-th number from j on, with fuel for the rounds.
  unfoldable pub read_channel : ℕ → ℕ → ℕ → List ℤ → List A
  read_channel zero nc j ints = []
  read_channel (suc f) nc j ints =
      let rest = read_channel f nc (j + nc) ints in
      elim (get_elem? ints j) [ none ↦ [] | some n ↦ of_int n ∷ rest ]

  -- The outer loop, over the channels from number i on; their old content is dropped.
  unfoldable pub read_channels : ℕ → ℕ → List (List A) → List ℤ → List (List A)
  unfolding read_channel
  read_channels nc i [] ints = []
  read_channels nc i (c ∷ cs) ints =
      read_channel (length ints) nc i ints ∷ read_channels nc (suc i) cs ints

  -- `ReadInts`, which overwrites the buffer that it is called on.
  unfoldable pub read_ints : Buffer A → List ℤ → Buffer A
  unfolding read_channels
  read_ints none ints = none
  read_ints (some b) ints = some (read_channels (length b) 0 b ints)
