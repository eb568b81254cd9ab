-- ===== src/Tests/WavTests.antt =====
-- wav/wav.go: a stereo buffer there and back, and a file that is read in blocks.
use phono.Base.{
  ℕ, ◌*◌, ◌≡◌, refl, ap, ◌∙◌, List, [], ◌∷◌, ◌++◌, none, some, map, length, take, drop, min, arith,
  inl, inr, length-take, length-append, length-drop, take_all, take-append, drop_all, append_nil,
  Bool-cases, ltb, true, String,
}
use phono.Base.Int.{ℤ, pos, pos_part}
use phono.Base.Outcome.{done}
use phono.Wav.{
  Format, IntBuffer, AudioBuffer, int_buffer, end_of_pipe, value, as_samples, as_buffer,
}
use phono.Wav.Files.{Decoding, Pump, pump_of}
use phono.Wav.Conversion.{dealt, as_samples-as_buffer}
use phono.Wav.Reading.{Filled, blocks, pump_all, pump_all-blocks}

abbrev stereo : Format
stereo = record { num_channels = 2; sample_rate = 44100 }

abbrev empty_ints : IntBuffer
empty_ints = record { format = some stereo; numbers = []; source_bit_depth = 16 }

abbrev frames_of : AudioBuffer → ℕ
frames_of b = 0

as_samples-as_buffer_example :
    (ib : IntBuffer) × (as_buffer pos
        (some ((1 ∷ 2 ∷ []) ∷ (3 ∷ 4 ∷ []) ∷ []))
        (some (int_buffer empty_ints))
      ≡ done (some (int_buffer ib), none))
    × (length ib.numbers ≡ 2 * 2)
    × (as_samples pos_part 0 frames_of (some (int_buffer ib))
        ≡ value (some (map (map (λ x. pos_part (pos x))) ((1 ∷ 2 ∷ []) ∷ (3 ∷ 4 ∷ []) ∷ []))))
as_samples-as_buffer_example =
    as_samples-as_buffer pos_part 0 frames_of pos (1 ∷ 2 ∷ []) ((3 ∷ 4 ∷ []) ∷ []) empty_ints stereo
      (refl, (refl, tt)) refl refl

-- A file is the list of its numbers.
abbrev fill_from : List ℤ → IntBuffer → IntBuffer
fill_from xs ib =
    let front = take (length ib.numbers) xs in
    record ib { numbers = front ++ drop (length front) ib.numbers }

abbrev list_decoding : Decoding String (List ℤ)
list_decoding = record {
  open_file = inl;
  close = λ f. (f, none);
  new_decoder = λ f. pos 1 ∷ pos 2 ∷ pos 3 ∷ pos 4 ∷ pos 5 ∷ pos 6 ∷ [];
  is_valid_file = λ d. true;
  format = λ d. stereo;
  sample_rate = λ d. 44100;
  bit_depth = λ d. 16;
  audio_format = λ d. 1;
  pcm_buffer = λ d ib.
      (drop (length ib.numbers) d, (fill_from d ib, inl (min (length ib.numbers) (length d))));
}

abbrev six : List ℤ
six = pos 1 ∷ pos 2 ∷ pos 3 ∷ pos 4 ∷ pos 5 ∷ pos 6 ∷ []

take-front :
    (xs ys : List ℤ)
    → take (length xs) (take (length ys) xs ++ drop (length (take (length ys) xs)) ys)
      ≡ take (length ys) xs
take-front xs ys =
    let n = length ys in
    let front = take n xs in
    let size = length-take n xs in
    elim (Bool-cases (ltb (length xs) n)) [
      | inl short ↦ take-append front (drop (length front) ys) (length xs) (ground arith)
      | inr long ↦
          let none_left : drop (length front) ys ≡ [] = drop_all ys (length front) (ground arith) in
          ap (λ l. take (length xs) (front ++ l)) none_left
          ∙ ap (take (length xs)) (append_nil front)
          ∙ take_all front (length xs) (ground arith)
    ]

list_decoding-Filled :
    (d : List ℤ) (ib : IntBuffer) → Filled (λ l. l) d ib (list_decoding.pcm_buffer d ib)
list_decoding-Filled d ib =
    let front = take (length ib.numbers) d in
    record {
      count = refl;
      rest = refl;
      size =
          length-append front (drop (length front) ib.numbers)
          ∙ omega (arith, length-take (length ib.numbers) d, length-drop (length front) ib.numbers);
      numbers = take-front d ib.numbers;
      format = refl;
    }

-- Buffers of two frames.
abbrev wav_pump : Pump String (List ℤ)
wav_pump = pump_of list_decoding "pump" "file" 2 six

pump_all-blocks_example :
    pump_all list_decoding pos_part 0 frames_of 7 wav_pump
    ≡ done (map (dealt pos_part 2) (blocks 7 4 six), some end_of_pipe)
pump_all-blocks_example =
    pump_all-blocks list_decoding pos_part 0 frames_of (λ l. l) list_decoding-Filled 7 wav_pump six
      stereo refl refl (omega arith) (omega arith)
