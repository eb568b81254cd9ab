-- ===== src/Portaudio/Playing.antt =====
-- portaudio/portaudio.go: what the sink hands over to the device for a buffer.
use phono.Base.{
  ℕ, zero, suc, ◌+◌, ◌*◌, ◌≤◌, ◌<◌, ◌≡◌, refl, sym, ap, ◌∙◌, List, [], ◌∷◌, ◌++◌, some, length,
  length-append, drop, length-drop, drop-append, some-injective, lt_of_get_elem?, get_elem?,
  get_elem?-append_left, arith,
}
use phono.Base.Outcome.{done}
use phono.Buffer.{IsRect}
use phono.Pcm.{write_frames}
use phono.Pcm.Interleaving.{frames, write_frames_lem, length-frames, get_elem?-frames}
use phono.Portaudio.{Library, Sink, write_stream, sink}

module _ {P S A B : Type 0} (lib : Library P S B) (to_float32 : A → B) where
  rect_get :
      (n : ℕ) (b : List (List A)) (j : ℕ) (d : List A)
      → IsRect n b
      → get_elem? b j ≡ some d
      → (length d ≡ n) × (j < length b)
  rect_get n [] j d r is = cc
  rect_get n (c ∷ cs) zero d r is = (ap length (sym (some-injective is)) ∙ r.0, omega arith)
  rect_get n (c ∷ cs) (suc j) d r is =
      let (len, inside) = rect_get n cs j d r.1 is in (len, omega arith)

  -- A rectangular buffer of as many channels as the sink has, and of no more frames than it has room
  -- for, goes to the stream in one write: the converted sample i of channel j is number i * nc + j, and
  -- behind the last frame of a short buffer stays what was there before. The sink keeps what it has
  -- written, and returns the stream's error.
  pub sink-frames :
      (c : List A) (cs : List (List A)) (s : Sink S B) (stream : S) (p : P)
      → IsRect (length c) (c ∷ cs)
      → length (c ∷ cs) ≡ s.nc
      → s.stream ≡ some stream
      → length c * s.nc ≤ length s.buf
      → (i j : ℕ) (d : List A) (x : A) → get_elem? (c ∷ cs) j ≡ some d
      → get_elem? d i ≡ some x
      → (written : List B) × (sink lib to_float32 (some (c ∷ cs)) s p
          ≡ done (
            (lib.write stream written p).0,
            record s { buf = written },
            (lib.write stream written p).1,
          ))
        × (length written ≡ length s.buf)
        × (get_elem? written (i * s.nc + j) ≡ some (to_float32 x))
        × (drop (length c * s.nc) written ≡ drop (length c * s.nc) s.buf)
  unfolding sink write_stream
  sink-frames c cs s stream p rect channels is_stream room i j d x is_d is_x =
      let n = length c in
      let b = c ∷ cs in
      let within = rect_get n b j d rect is_d in
      let inside : i < n = omega (arith, lt_of_get_elem? d i is_x, within.0) in
      let sizes : n * length b ≡ n * s.nc = ap (λ m. n * m) channels in
      let all = frames to_float32 b 0 n in
      let size : length all ≡ n * s.nc =
        length-frames to_float32 n 0 n b rect (omega arith) ∙ sizes in
      let rest = drop (n * s.nc) s.buf in
      let writes : write_frames to_float32 s.nc b n 0 s.buf ≡ done (all ++ rest) =
        ap (λ m. write_frames to_float32 m b n 0 s.buf) (sym channels)
        ∙ write_frames_lem to_float32 n n 0 b [] s.buf rect (omega arith) (omega arith)
            (omega (arith, room, sizes))
        ∙ ap (λ m. done (all ++ drop (n * m) s.buf)) channels in
      let at : 0 + i ≡ i = omega arith in
      let found : get_elem? all (i * s.nc + j) ≡ some (to_float32 x) =
        ap (λ m. get_elem? all (i * m + j)) (sym channels)
        ∙ get_elem?-frames to_float32 n 0 n i j b rect (omega arith) inside is_d within.1
            (ap (get_elem? d) at ∙ is_x) in
      (
        all ++ rest,
        rw (writes, is_stream) refl,
        omega (arith, length-append all rest, size, length-drop (n * s.nc) s.buf, room),
        get_elem?-append_left all rest (i * s.nc + j) (lt_of_get_elem? all (i * s.nc + j) found)
            ∙ found,
        drop-append all rest (n * s.nc) size,
      )
