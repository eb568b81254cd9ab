-- ===== src/Tests/DeviceTests.antt =====
-- portaudio/portaudio.go: a short buffer behind a longer one.
use phono.Base.{
  ℕ, ◌+◌, ◌*◌, ◌≡◌, refl, List, [], ◌∷◌, ◌++◌, none, some, length, drop, get_elem?, arith, inl,
}
use phono.Base.Outcome.{done}
use phono.Pcm.{write_frames, write_frame, store, index}
use phono.Portaudio.{Library, Sink, sink, write_stream}
use phono.Portaudio.Playing.{sink-frames}

-- A device that keeps what is written.
abbrev device : Library (List ℕ) ℕ ℕ
device = record {
  initialize = λ p. (p, none);
  open_default_stream = λ nc sr bs p. (p, inl 1);
  start = λ stream p. (p, none);
  write = λ stream buf p. (p ++ buf, none);
  stop = λ stream p. (p, none);
  close = λ stream p. (p, none);
  terminate = λ p. (p, none);
}

abbrev playing : Sink ℕ ℕ
playing = record {
  uid = "out";
  buf = 1 ∷ 2 ∷ 3 ∷ 4 ∷ [];
  stream = some 1;
  sr = 44100;
  bs = 2;
  nc = 2;
}

abbrev convert : ℕ → ℕ
convert x = x + 10

-- One frame of a buffer of two: the second frame of the one before is played again.
short_buffer :
    sink device convert (some ((5 ∷ []) ∷ (6 ∷ []) ∷ [])) playing []
    ≡ done (15 ∷ 16 ∷ 3 ∷ 4 ∷ [], record playing { buf = 15 ∷ 16 ∷ 3 ∷ 4 ∷ [] }, none)
unfolding sink write_stream write_frames write_frame store index
short_buffer = refl

sink-frames_example :
    (written : List ℕ) × (sink device convert (some ((5 ∷ []) ∷ (6 ∷ []) ∷ [])) playing []
      ≡ done ([] ++ written, record playing { buf = written }, none))
    × (length written ≡ 4)
    × (get_elem? written (0 * 2 + 1) ≡ some 16)
    × (drop (1 * 2) written ≡ drop (1 * 2) (1 ∷ 2 ∷ 3 ∷ 4 ∷ []))
sink-frames_example =
    sink-frames device convert (5 ∷ []) ((6 ∷ []) ∷ []) playing 1 [] (refl, (refl, tt)) refl refl
      (omega arith) 0 1 (6 ∷ []) 6 refl refl
