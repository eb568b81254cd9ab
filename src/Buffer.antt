-- ===== src/Buffer.antt =====
-- phono.go: `Buffer`, the sample data sliced per channel, and `Clip`, a segment of a buffer.
-- A sample is a `float64` in the source and any type here. A Go slice of slices is a list of lists;
-- `none` is the nil buffer, which the source tells from an empty one. Buffers are values: every
-- caller of `Append` puts the result in the place of the old buffer.
pub mod Appending
pub mod Slicing
pub mod Clipping
pub mod Splitting
use phono.Base.{
  ℕ, zero, suc, ◌-◌, ◌≡◌, Bool, ◌&&◌, ◌||◌, List, [], ◌∷◌, ◌++◌, Option, none, some, length, take,
  drop, replicate, All, if◌then◌else◌,
}
use phono.Base.Int.{ℤ, pos, pos_part, ltb_ℤ, leb_ℤ, add64, sub64}
use phono.Base.Outcome.{Outcome, done, panic, ◌>>=◌}

abbrev pub Buffer {ℓ} : Type ℓ → Type ℓ
Buffer A = Option (List (List A))

module _ {ℓ} {A : Type ℓ} where
  -- `NumChannels`: the number of channels in this sample slice.
  abbrev pub num_channels : Buffer A → ℕ
  num_channels none = 0
  num_channels (some b) = length b

  -- `Size`: the number of samples in the first channel.
  abbrev pub size : Buffer A → ℕ
  size none = 0
  size (some []) = 0
  size (some (c ∷ cs)) = length c

  -- The loop of `Append`, `b[i] = append(b[i], source[i]...)`: an index error if the source has
  -- more channels.
  unfoldable pub append_channels : List (List A) → List (List A) → Outcome (List (List A))
  append_channels b [] = done b
  append_channels [] (s ∷ source) = panic
  append_channels (c ∷ b) (s ∷ source) = do rest ← append_channels b source; done ((c ++ s) ∷ rest)

  -- `range source` over a nil buffer makes no round.
  abbrev pub channels : Buffer A → List (List A)
  channels none = []
  channels (some b) = b

  -- `Append`: a nil buffer is first replaced by one of as many empty channels as the source has.
  unfoldable pub append : Buffer A → Buffer A → Outcome (Buffer A)
  unfolding append_channels
  append none source = do
    b ← append_channels (replicate (num_channels source) []) (channels source)
    done (some b)
  append (some b) source = do b' ← append_channels b (channels source); done (some b')

  -- Go's `xs[lo:hi]` on a slice without spare capacity.
  unfoldable pub slice_expr : List A → ℤ → ℤ → Outcome (List A)
  slice_expr xs lo hi =
      if leb_ℤ (pos 0) lo && (leb_ℤ lo hi && leb_ℤ hi (pos (length xs)))
      then done (take (pos_part hi - pos_part lo) (drop (pos_part lo) xs))
      else panic

  -- The loop of `Slice`: `end` is cut to the size in the first round.
  unfoldable pub slice_channels : ℕ → ℤ → ℤ → List (List A) → Outcome (List (List A))
  unfolding slice_expr
  slice_channels n start end [] = done []
  slice_channels n start end (c ∷ cs) = do
    let end' = if ltb_ℤ (pos n) end then pos n else end
    s ← slice_expr c start end'
    rest ← slice_channels n start end' cs
    done (s ∷ rest)

  -- The guard that `Slice` and `Clip` share, for a buffer that is not nil.
  abbrev pub starts_outside : List (List A) → ℤ → Bool
  starts_outside b start = leb_ℤ (pos (size (some b))) start || ltb_ℤ start (pos 0)

  -- `Slice`: a copy from `start` of `len` samples, fewer at the end of the buffer.
  unfoldable pub slice : Buffer A → ℤ → ℤ → Outcome (Buffer A)
  unfolding slice_channels add64
  slice none start len = done none
  slice (some b) start len =
      if starts_outside b start
      then done none
      else (do r ← slice_channels (size (some b)) start (add64 start len) b; done (some r))

-- A segment of a buffer, not a copy.
pub record Clip {ℓ} (A : Type ℓ) : Type ℓ where
  pub buffer : Buffer A
  pub start : ℤ
  pub len : ℤ

module _ {ℓ} {A : Type ℓ} where
  -- `Clip{}`
  abbrev pub no_clip : Clip A
  no_clip = record { buffer = none; start = pos 0; len = pos 0 }

  -- The method `Clip` of a buffer.
  unfoldable pub clip : Buffer A → ℤ → ℤ → Clip A
  unfolding add64 sub64
  clip none start len = no_clip
  clip (some b) start len =
      let n = pos (size (some b)) in
      let cut = if leb_ℤ n (add64 start len) then sub64 n start else len in
      if starts_outside b start
      then no_clip
      else record { buffer = some b; start = start; len = cut }

  -- `EmptyBuffer`, given the zero sample.
  unfoldable pub empty_buffer : A → ℕ → ℕ → Buffer A
  empty_buffer zero_sample nc bs = some (replicate nc (replicate bs zero_sample))

  -- Every channel has n samples.
  abbrev pub IsRect : ℕ → List (List A) → Type 0
  IsRect n = All (λ c. length c ≡ n)
