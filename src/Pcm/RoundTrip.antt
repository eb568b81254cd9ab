-- ===== src/Pcm/RoundTrip.antt =====
-- phono.go: `ReadInts` after `Ints`.
use phono.Base.{
  ℕ, zero, suc, ◌+◌, ◌*◌, ◌≤◌, ◌<◌, ◌≡◌, refl, sym, ap, ap₂, ◌∙◌, List, [], ◌∷◌, map, some, length,
  get_elem?, drop, get_elem?-lt, get_elem?-ge, drop-get_elem?, drop_all, arith,
}
use mathlib.Core.Option.{some-injective}
use native.Mathlib.Decide.{dec_lt}
use phono.Base.Int.{ℤ}
use phono.Base.Outcome.{done}
use phono.Buffer.{IsRect}
use phono.Pcm.{ints, read_channel, read_channels, read_ints}
use phono.Pcm.Interleaving.{frames, ints-frames, length-frames, get_elem?-frames}

le-mul_pos : (n m : ℕ) → 0 < m → n ≤ n * m
le-mul_pos n m h = grind arith

module _ {ℓ} {A : Type ℓ} (to_int : A → ℤ) (of_int : ℤ → A) where
  read_channel_next :
      (f nc k : ℕ) (xs : List ℤ) {v : ℤ}
      → get_elem? xs k ≡ some v
      → read_channel of_int (suc f) nc k xs ≡ of_int v ∷ read_channel of_int f nc (k + nc) xs
  unfolding read_channel
  read_channel_next f nc k xs e = rw (e, read_channel)

  read_channel_end : (f nc k : ℕ) (xs : List ℤ) → length xs ≤ k → read_channel of_int f nc k xs ≡ []
  unfolding read_channel
  read_channel_end zero nc k xs h = refl
  read_channel_end (suc f) nc k xs h = rw (get_elem?-ge xs k h, read_channel)

  frames_end :
      (t j : ℕ) (b : List (List A)) (c : List A)
      → IsRect (length c) b
      → t ≡ length c
      → length (frames to_int b 0 (length c)) ≤ t * length b + j
  frames_end t j b c r h = omega (
    arith,
    length-frames to_int (length c) 0 (length c) b r (omega arith),
    ap (λ z. z * length b) h,
  )

  IsRect-get :
      (n : ℕ) (b : List (List A)) (i : ℕ) {c : List A}
      → IsRect n b
      → get_elem? b i ≡ some c
      → length c ≡ n
  IsRect-get n [] i r h = cc
  IsRect-get n (d ∷ b) zero r h = rw (← some-injective _ _ h) r.0
  IsRect-get n (d ∷ b) (suc i) r h = IsRect-get n b i r.1 h

  -- From sample t on, a channel is read back, if the fuel covers the samples that are left.
  read_channel_lem :
      (f t j : ℕ) (b : List (List A)) {c : List A}
      → IsRect (length c) b
      → get_elem? b j ≡ some c
      → j < length b
      → t ≤ length c
      → length c ≤ t + f
      → read_channel of_int f (length b) (t * length b + j) (frames to_int b 0 (length c))
        ≡ map (λ x. of_int (to_int x)) (drop t c)
  read_channel_lem zero t j b {c} r e m h k =
      rw (drop_all c t (omega arith))
        (read_channel_end zero _ _ _ (frames_end t j b c r (omega arith)))
  read_channel_lem (suc f) t j b {c} r e m h k = elim (dec_lt t (length c)) [
    | yes more ↦
        let (x, here) = get_elem?-lt c t more in
        let data' = frames to_int b 0 (length c) in
        read_channel_next f (length b) (t * length b + j) data' (
          get_elem?-frames to_int (length c) 0 (length c) t j b r (omega arith) more e m
            (ap (get_elem? c) (omega arith) ∙ here))
        ∙ ap (λ k'. of_int (to_int x) ∷ read_channel of_int f (length b) k' data') (omega arith)
        ∙ ap (◌∷◌ (of_int (to_int x)))
            (read_channel_lem f (suc t) j b r e m (omega arith) (omega arith))
        ∙ sym (ap (map (λ y. of_int (to_int y))) (drop-get_elem? c t here))
    | no over ↦
        rw (drop_all c t (omega arith))
          (read_channel_end (suc f) _ _ _ (frames_end t j b c r (omega arith)))
  ]

  read_one :
      (n i : ℕ) (b : List (List A)) (c : List A)
      → IsRect n b
      → get_elem? b i ≡ some c
      → i < length b
      → read_channel of_int (length (frames to_int b 0 n)) (length b) i (frames to_int b 0 n)
        ≡ map (λ x. of_int (to_int x)) c
  read_one n i b c r here h =
      let width : length c ≡ n = IsRect-get n b i r here in
      rw (← width) (
        ap
          (λ k.
            read_channel of_int (length (frames to_int b 0 (length c))) (length b) k
              (frames to_int b 0 (length c)))
          (omega arith)
        ∙ read_channel_lem _ 0 i b (rw width r) here h (omega arith) (
            omega (
              arith,
              length-frames to_int (length c) 0 (length c) b (rw width r) (omega arith),
              le-mul_pos (length c) (length b),
            )))

  read_channels_lem :
      (n i : ℕ) (b old : List (List A))
      → IsRect n b
      → i + length old ≡ length b
      → read_channels of_int (length b) i old (frames to_int b 0 n)
        ≡ map (map (λ x. of_int (to_int x))) (drop i b)
  unfolding read_channels
  read_channels_lem n i b [] r h = rw (drop_all b i (omega arith))
  read_channels_lem n i b (o ∷ old) r h =
      let (c, here) = get_elem?-lt b i (omega arith) in
      ap₂ ◌∷◌ (read_one n i b c r here (omega arith))
        (read_channels_lem n (suc i) b old r (omega arith))
      ∙ sym (ap (map (map (λ x. of_int (to_int x)))) (drop-get_elem? b i here))

  -- `Ints` of a rectangular buffer that has a channel, read back by `ReadInts` into any buffer of
  -- as many channels, gives every sample in its place, put through the two conversions.
  pub read_ints-ints :
      (c : List A) (cs old : List (List A))
      → IsRect (length c) (c ∷ cs)
      → length old ≡ length (c ∷ cs)
      → (data' : List ℤ) × (ints to_int (some (c ∷ cs)) ≡ done (some data'))
        × (length data' ≡ length c * length (c ∷ cs))
        × (read_ints of_int (some old) data' ≡ some (map (map (λ x. of_int (to_int x))) (c ∷ cs)))
  unfolding read_ints
  read_ints-ints c cs old r h = (
    frames to_int (c ∷ cs) 0 (length c),
    ints-frames to_int c cs r,
    length-frames to_int (length c) 0 (length c) (c ∷ cs) r (omega arith),
    rw h (ap some (read_channels_lem (length c) 0 (c ∷ cs) old r (omega arith))),
  )
