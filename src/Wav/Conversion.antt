-- ===== src/Wav/Conversion.antt =====
-- wav/wav.go: a buffer, put into one of go-audio and taken out of it.
use phono.Base.{
  length-replicate, ℕ, zero, suc, ◌*◌, ◌≡◌, refl, sym, ap, ◌∙◌, List, [], ◌∷◌, none, some, map,
  length, replicate,
}
use phono.Base.Int.{ℤ}
use phono.Base.Outcome.{done}
use phono.Buffer.{Buffer, IsRect, empty_buffer}
use phono.Pcm.{read_channel, read_channels, read_ints}
use phono.Pcm.RoundTrip.{read_ints-ints}
use phono.Wav.{
  Format, IntBuffer, AudioBuffer, int_buffer, value, as_samples, convert, fill, as_buffer,
}

module _ {A : Type 0} (of_int : ℤ → A) where
  -- A block of numbers, dealt out to nc channels.
  abbrev pub dealt : ℕ → List ℤ → Buffer A
  dealt nc numbers = read_ints of_int (some (replicate nc [])) numbers

  read_channels-replicate :
      (nc i n : ℕ) (c : List A) (numbers : List ℤ)
      → read_channels of_int nc i (replicate n c) numbers
        ≡ read_channels of_int nc i (replicate n []) numbers
  unfolding read_channels
  read_channels-replicate nc i zero c numbers = refl
  read_channels-replicate nc i (suc n) c numbers =
      ap (◌∷◌ (read_channel of_int (length numbers) nc i numbers))
        (read_channels-replicate nc (suc i) n c numbers)

module _ {A : Type 0} (of_int : ℤ → A) (zero_sample : A) (num_frames : AudioBuffer → ℕ) where
  -- `AsSamples` does not rely on the number of frames.
  pub as_samples-dealt :
      (ib : IntBuffer) (f : Format)
      → ib.format ≡ some f
      → as_samples of_int zero_sample num_frames (some (int_buffer ib))
        ≡ value (dealt of_int f.num_channels ib.numbers)
  unfolding as_samples convert fill empty_buffer read_ints
  as_samples-dealt ib f has_format =
      let n = f.num_channels in
      let c = replicate (num_frames (int_buffer ib)) zero_sample in
      ap (λ g. convert of_int zero_sample num_frames g (int_buffer ib)) has_format
      ∙ ap (λ k. value (some (read_channels of_int k 0 (replicate n c) ib.numbers)))
          (length-replicate n c)
      ∙ ap (λ cs. value (some cs)) (read_channels-replicate of_int n 0 n c ib.numbers)
      ∙ sym (
          ap (λ k. value (some (read_channels of_int k 0 (replicate n []) ib.numbers)))
            (length-replicate {A = List A} n []))

  -- A rectangular buffer with a channel goes into an int buffer with as many channels; what
  -- comes out of it again has every sample in its place, put through the two conversions.
  pub as_samples-as_buffer :
      (to_int : A → ℤ) (c : List A) (cs : List (List A)) (ib : IntBuffer) (f : Format)
      → IsRect (length c) (c ∷ cs)
      → ib.format ≡ some f
      → f.num_channels ≡ length (c ∷ cs)
      → (ib' : IntBuffer) × (as_buffer to_int (some (c ∷ cs)) (some (int_buffer ib))
          ≡ done (some (int_buffer ib'), none))
        × (length ib'.numbers ≡ length c * f.num_channels)
        × (as_samples of_int zero_sample num_frames (some (int_buffer ib'))
            ≡ value (some (map (map (λ x. of_int (to_int x))) (c ∷ cs))))
  unfolding as_buffer
  as_samples-as_buffer to_int c cs ib f rect has_format channels =
      let (data', e, size, back) =
        read_ints-ints to_int of_int c cs (replicate f.num_channels []) rect
          (length-replicate {A = List A} f.num_channels [] ∙ channels) in
      let ib' = record ib { numbers = data' } in
      (
        ib',
        rw e refl,
        size ∙ ap (◌*◌ (length c)) (sym channels),
        as_samples-dealt ib' f has_format ∙ ap value back,
      )
