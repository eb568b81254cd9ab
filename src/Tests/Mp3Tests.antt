-- ===== src/Tests/Mp3Tests.antt =====
-- mp3/pump_test.go: a decoder that delivers a list of numbers, a buffer size of two samples.
use phono.Buffer.{Buffer}
use phono.Pcm.{ints, write_frames, write_frame, store, index}
use phono.Mp3.Sinking.{Lame, Sink, low16, int16, sink}
use phono.Mp3.Words.{words, IsInt16, sink-int16}
use phono.Base.{
  ℕ, ◌<◌, none, map, All, length, ◌++◌, inl, ◌≡◌, refl, true, false, List, [], ◌∷◌, some, arith,
}
use phono.Base.Int.{ℤ, pos, negsuc}
use phono.Base.Outcome.{done}
use phono.Pipe.Runner.{eop}
use phono.Pipe.Runner.PumpRunner.{buffer, failure}
use phono.Mp3.{Read, value, end_of_file, Pump, pump}
use phono.Mp3.Reading.{pump-full, pump-end_of_file}

abbrev read_list : List ℤ → List ℤ × Read
read_list [] = ([], end_of_file)
read_list (x ∷ xs) = (xs, value x)

abbrev same_number : ℤ → ℤ
same_number n = n

abbrev five : List ℤ
five = pos 1 ∷ pos 2 ∷ pos 3 ∷ pos 4 ∷ pos 5 ∷ []

abbrev pump_of : List ℤ → Pump (List ℤ)
pump_of xs = record { d = xs; buffer_size = 2; is_done = false }

pump-full_example :
    pump read_list same_number (pos 0) (pump_of five)
    ≡ done (pump_of (pos 5 ∷ []), buffer (some ((pos 1 ∷ pos 3 ∷ []) ∷ (pos 2 ∷ pos 4 ∷ []) ∷ [])))
pump-full_example =
    pump-full read_list same_number (pos 0) (pump_of five) (pos 1 ∷ pos 2 ∷ pos 3 ∷ pos 4 ∷ [])
      (pos 5 ∷ []) refl (refl, (refl, (refl, (refl, refl)))) refl

-- After 1, 2 a file of two numbers gives 1, 2, 2, 0.
pump-end_of_file_example :
    let p' : Pump (List ℤ) = record { d = []; buffer_size = 2; is_done = true } in
    (pump read_list same_number (pos 0) (pump_of (pos 1 ∷ pos 2 ∷ []))
      ≡ done (p', buffer (some ((pos 1 ∷ pos 2 ∷ []) ∷ (pos 2 ∷ pos 0 ∷ []) ∷ []))))
    × (pump read_list same_number (pos 0) p' ≡ done (p', failure eop))
pump-end_of_file_example =
    pump-end_of_file read_list same_number (pos 0) (pump_of (pos 1 ∷ pos 2 ∷ []))
      (pos 1 ∷ pos 2 ∷ []) [] refl (refl, (refl, refl)) refl (omega arith)

-- A writer that keeps its bytes.
abbrev keeping : Lame ℕ (List ℕ)
keeping = record {
  create = λ path. inl 1;
  new_writer = λ f. [];
  set_bitrate = λ n w. w;
  set_quality = λ n w. w;
  set_num_channels = λ n w. w;
  set_in_samplerate = λ n w. w;
  set_mode_joint_stereo = λ w. w;
  set_vbr_rh = λ w. w;
  init_params = λ w. w;
  write = λ w bytes. (w ++ bytes, none);
  close = λ w. (w, none);
  close_file = λ f. (f, none);
}

abbrev kept : Sink ℕ (List ℕ)
kept = record { uid = "mp3"; f = 1; wr = []; once = false }

abbrev loud : Buffer ℤ
loud = some ((pos 1 ∷ []) ∷ (pos 40000 ∷ []) ∷ [])

ints-loud : ints same_number loud ≡ done (some (pos 1 ∷ pos 40000 ∷ []))
unfolding ints write_frames write_frame store index
ints-loud = refl

sink-int16_example :
    (bytes : List ℕ) × (sink keeping same_number loud kept
      ≡ done (record kept { wr = [] ++ bytes }, none))
    × (length bytes ≡ 4)
    × All (λ b. b < 256) bytes
    × (words bytes ≡ map int16 (pos 1 ∷ pos 40000 ∷ []))
    × All IsInt16 (words bytes)
sink-int16_example =
    sink-int16 keeping same_number loud kept (some (pos 1 ∷ pos 40000 ∷ [])) ints-loud

wrapped : map int16 (pos 1 ∷ pos 40000 ∷ []) ≡ pos 1 ∷ negsuc 25535 ∷ []
unfolding int16 low16
wrapped = refl
