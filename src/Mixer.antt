-- ===== src/Mixer.antt =====
-- mixer/mixer.go: `sum`, which mixes the buffers of a frame into one. The float64 operations are
-- parameters: the sum, the division, zero and `frames++`. The numbers of channels and samples are
-- not negative.
pub mod Mixing
pub mod Frames
pub mod Mix
pub mod Methods
pub mod Mixed
use phono.Base.{ℕ, zero, suc, ◌≡◌, List, [], ◌∷◌, Option, none, some, get_elem?}
use phono.Base.Outcome.{Outcome, done, ◌>>=◌}
use phono.Buffer.{Buffer, channels}
use phono.Pcm.{index}

module _ {A : Type 0} (add div : A → A → A) (increment : A → A) (nought : A) where
  -- Its body, given the sample and the rest of the loop.
  unfoldable pub next_sum : (A → A → Outcome (A × A)) → Option A → A → A → Outcome (A × A)
  next_sum rest none sum frames = done (sum, frames)
  next_sum rest (some x) sum frames = rest (add sum x) (increment frames)

  -- The innermost loop, from a buffer on: it ends at the first buffer whose channel has no sample
  -- number bs.
  unfoldable pub sum_from : ℕ → ℕ → List (Buffer A) → A → A → Outcome (A × A)
  sum_from nc bs [] sum frames = done (sum, frames)
  sum_from nc bs (b ∷ buffers) sum frames = do
    c ← index (channels b) nc
    next_sum (sum_from nc bs buffers) (get_elem? c bs) sum frames

  -- The loop over the samples, with the rounds that are left.
  unfoldable pub sum_channel : ℕ → ℕ → ℕ → List (Buffer A) → Outcome (List A)
  sum_channel nc zero bs buffers = done []
  sum_channel nc (suc n) bs buffers = do
    (sum, frames) ← sum_from nc bs buffers nought nought
    rest ← sum_channel nc n (suc bs) buffers
    done (div sum frames ∷ rest)

  -- The loop over the channels, with the rounds that are left.
  unfoldable pub sum_channels : ℕ → ℕ → ℕ → List (Buffer A) → Outcome (List (List A))
  sum_channels zero buffer_size nc buffers = done []
  sum_channels (suc n) buffer_size nc buffers = do
    c ← sum_channel nc buffer_size 0 buffers
    rest ← sum_channels n buffer_size (suc nc) buffers
    done (c ∷ rest)

  -- `sum`, with the buffers of the frame that it leaves.
  unfoldable pub sum : ℕ → ℕ → List (Buffer A) → Outcome (Buffer A × List (Buffer A))
  sum num_channels buffer_size buffers = do
    result ← sum_channels num_channels buffer_size 0 buffers
    done (some result, [])
