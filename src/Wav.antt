-- ===== src/Wav.antt =====
-- wav/wav.go: `AsSamples` and `AsBuffer`, between buffers of samples and those of go-audio. Of that
-- library's types the model has what the source reads and writes of them: the fields of
-- `audio.IntBuffer`, and the format that any `audio.Buffer` gives. Its `NumFrames` is a parameter.
pub mod Files
pub mod Conversion
pub mod Reading
use phono.Base.{ℕ, List, [], Option, none, some}
use phono.Base.Int.{ℤ}
use phono.Base.Outcome.{Outcome, done, ◌>>=◌}
use phono.Buffer.{Buffer, empty_buffer}
use phono.Pcm.{ints, read_ints}

-- `audio.Format`
pub record Format : Type 0 where
  pub num_channels : ℕ
  pub sample_rate : ℕ

-- `audio.IntBuffer`
pub record IntBuffer : Type 0 where
  pub format : Option Format
  pub numbers : List ℤ
  pub source_bit_depth : ℕ

-- `audio.Buffer`: an `*audio.IntBuffer`, or another of its types.
pub data AudioBuffer : Type 0 where
  int_buffer : IntBuffer → AudioBuffer
  other_buffer : Option Format → AudioBuffer

-- The errors that this package makes, the end of the pipe, and those that a library returned.
pub data Error : Type 0 where
  format_not_defined not_convertible not_valid source_not_defined end_of_pipe : Error
  library_error : ℕ → Error

-- A value and an error, one of which is nil.
pub data Result (A : Type 0) : Type 0 where
  value : A → Result A
  failed : Error → Result A

-- `PCMFormat`
abbrev pub pcm_format : AudioBuffer → Option Format
pcm_format (int_buffer ib) = ib.format
pcm_format (other_buffer f) = f

module _ {A : Type 0} (of_int : ℤ → A) (zero_sample : A) (num_frames : AudioBuffer → ℕ) where
  -- The type switch of `AsSamples`, with the empty buffer.
  unfoldable pub fill : Buffer A → AudioBuffer → Result (Buffer A)
  fill b (int_buffer ib) = value (read_ints of_int b ib.numbers)
  fill b (other_buffer f) = failed not_convertible

  -- `AsSamples`, of a buffer that is not nil.
  unfoldable pub convert : Option Format → AudioBuffer → Result (Buffer A)
  convert none ab = failed format_not_defined
  convert (some f) ab = fill (empty_buffer zero_sample f.num_channels (num_frames ab)) ab

  -- `AsSamples`
  unfoldable pub as_samples : Option AudioBuffer → Result (Buffer A)
  as_samples none = value none
  as_samples (some ab) = convert (pcm_format ab) ab

module _ {A : Type 0} (to_int : A → ℤ) where
  -- `ib.Data = b.Ints()`, where nil data are no numbers.
  abbrev pub or_empty : Option (List ℤ) → List ℤ
  or_empty none = []
  or_empty (some data') = data'

  -- `AsBuffer`, with the buffer that it changes and its error.
  unfoldable pub as_buffer :
      Buffer A → Option AudioBuffer → Outcome (Option AudioBuffer × Option Error)
  as_buffer b none = done (none, none)
  as_buffer none (some ab) = done (some ab, none)
  as_buffer (some b) (some (int_buffer ib)) = do
    data' ← ints to_int (some b)
    done (some (int_buffer (record ib { numbers = or_empty data' })), none)
  as_buffer (some b) (some (other_buffer f)) = done (some (other_buffer f), some not_convertible)
