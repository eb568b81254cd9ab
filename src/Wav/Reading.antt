-- ===== src/Wav/Reading.antt =====
-- wav/wav.go: the calls of the pump's function, for a decoder that hands out the numbers of a file.
use phono.Base.{
  ℕ, zero, suc, ◌≤◌, ◌<◌, ◌≡◌, refl, sym, ap, ap₂, ◌∙◌, List, [], ◌∷◌, Option, none, some, map,
  length, take, drop, min, arith, inl, inr, ◌⊎◌, Bool-cases, leb, ◌==◌, true, length-take,
  length-drop, take_all,
}
use phono.Base.Int.{ℤ}
use phono.Base.Outcome.{Outcome, done, ◌>>=◌}
use phono.Buffer.{Buffer}
use phono.Wav.{
  Format, IntBuffer, AudioBuffer, int_buffer, Error, end_of_pipe, value, failed, as_samples,
}
use phono.Wav.Conversion.{dealt, as_samples-dealt}
use phono.Wav.Files.{Decoding, Pump, pump, pump_with, on_pcm, after_pcm}

-- The numbers of a file in blocks of n, the last one with what is left.
abbrev pub blocks : ℕ → ℕ → List ℤ → List (List ℤ)
blocks zero n xs = []
blocks (suc fuel) n [] = []
blocks (suc fuel) n (x ∷ xs) = take n (x ∷ xs) ∷ blocks fuel n (drop n (x ∷ xs))

blocks-end : (fuel n : ℕ) (xs : List ℤ) → length xs ≡ 0 → blocks fuel n xs ≡ []
blocks-end zero n xs h = refl
blocks-end (suc fuel) n [] h = refl
blocks-end (suc fuel) n (x ∷ xs) h = absurd (omega arith)

blocks-some :
    (fuel n : ℕ) (xs : List ℤ)
    → 1 ≤ length xs
    → blocks (suc fuel) n xs ≡ take n xs ∷ blocks fuel n (drop n xs)
blocks-some fuel n [] h = absurd (omega arith)
blocks-some fuel n (x ∷ xs) h = refl

-- A buffer that is shorter than what was asked for is the last one.
blocks-min :
    (fuel n : ℕ) (xs : List ℤ)
    → blocks fuel (min n (length xs)) (drop n xs) ≡ blocks fuel n (drop n xs)
blocks-min fuel n xs = elim (Bool-cases (leb n (length xs))) [
  | inl inside ↦
      let same : min n (length xs) ≡ n = ground arith in ap (λ k. blocks fuel k (drop n xs)) same
  | inr outside ↦
      let none_left : length (drop n xs) ≡ 0 = length-drop n xs ∙ ground arith in
      blocks-end fuel (min n (length xs)) (drop n xs) none_left
      ∙ sym (blocks-end fuel n (drop n xs) none_left)
]

take-min : (xs : List ℤ) (n k : ℕ) → length xs ≡ n → take (min n k) xs ≡ take k xs
take-min xs n k size = elim (Bool-cases (leb n k)) [
  | inl inside ↦ take_all xs (min n k) (ground arith) ∙ sym (take_all xs k (ground arith))
  | inr outside ↦ let same : min n k ≡ k = ground arith in ap (λ j. take j xs) same
]

module _ {F D A : Type 0} (lib : Decoding F D) (of_int : ℤ → A) (zero_sample : A)
    (num_frames : AudioBuffer → ℕ) where
  -- The buffers of a pump, and the error that it returns after them. The fuel is the number of
  -- calls.
  unfoldable pub pump_all : ℕ → Pump F D → Outcome (List (Buffer A) × Option Error)
  pump_all zero p = done ([], none)
  pump_all (suc n) p = do
    (p', r) ← pump lib of_int zero_sample num_frames p
    elim r [
      | failed err ↦ done ([], some err)
      | value b ↦ do (bs, err) ← pump_all n p'; done (b ∷ bs, err)
    ]

module _ {D : Type 0} (left : D → List ℤ) where
  -- `PCMBuffer` fills the buffer from what is left of the file, as far as it goes, and returns the
  -- number of numbers.
  pub record Filled (d : D) (ib : IntBuffer) (r : D × (IntBuffer × (ℕ ⊎ ℕ))) : Type 0 where
    pub count : r.1.1 ≡ inl (min (length ib.numbers) (length (left d)))
    pub rest : left r.0 ≡ drop (length ib.numbers) (left d)
    pub size : length r.1.0.numbers ≡ length ib.numbers
    pub numbers : take (length (left d)) r.1.0.numbers ≡ take (length ib.numbers) (left d)
    pub format : r.1.0.format ≡ ib.format

module _ {F D A : Type 0} (lib : Decoding F D) (of_int : ℤ → A) (zero_sample : A)
    (num_frames : AudioBuffer → ℕ) (left : D → List ℤ) where
  module _ (reads : (d : D) (ib : IntBuffer) → Filled left d ib (lib.pcm_buffer d ib)) where
    pump-after_pcm :
        (p : Pump F D) (d : D)
        → p.decoder ≡ some d
        → (let r = lib.pcm_buffer d p.ib in
            pump lib of_int zero_sample num_frames p
            ≡ after_pcm lib of_int zero_sample num_frames
                (min (length p.ib.numbers) (length (left d)))
                (record p { decoder = some r.0; ib = r.1.0 }))
    unfolding pump pump_with on_pcm
    pump-after_pcm p d has_decoder =
        let r = lib.pcm_buffer d p.ib in
        ap (λ o. pump_with lib of_int zero_sample num_frames o p) has_decoder
        ∙ ap (λ c. on_pcm lib of_int zero_sample num_frames p (r.0, (r.1.0, c)))
            (reads d p.ib).count

    pump-end :
        (p : Pump F D) (d : D)
        → p.decoder ≡ some d
        → length (left d) ≡ 0
        → (p' : Pump F D) × (pump lib of_int zero_sample num_frames p
            ≡ done (p', failed end_of_pipe))
    unfolding after_pcm
    pump-end p d has_decoder is_empty =
        let r = lib.pcm_buffer d p.ib in
        let q = record p { decoder = some r.0; ib = r.1.0 } in
        let nothing : min (length p.ib.numbers) (length (left d)) ≡ 0 = omega arith in
        (
          q,
          pump-after_pcm p d has_decoder
              ∙ ap (λ n. after_pcm lib of_int zero_sample num_frames n q) nothing,
        )

    after_pcm-some :
        (n : ℕ) (q : Pump F D)
        → 1 ≤ n
        → n ≤ length q.ib.numbers
        → (let ib = record q.ib { numbers = take n q.ib.numbers } in
            after_pcm lib of_int zero_sample num_frames n q
            ≡ done (
              record q { ib = ib },
              as_samples of_int zero_sample num_frames (some (int_buffer ib)),
            ))
    unfolding after_pcm
    after_pcm-some zero q some_read fits = absurd (omega arith)
    after_pcm-some (suc n) q some_read fits =
        let inside : leb (suc n) (length q.ib.numbers) ≡ true = ground arith in rw inside refl

    pump-block :
        (p : Pump F D) (d : D) (f : Format)
        → p.decoder ≡ some d
        → p.ib.format ≡ some f
        → 1 ≤ length p.ib.numbers
        → 1 ≤ length (left d)
        → (p' : Pump F D) × (d' : D) × (pump lib of_int zero_sample num_frames p
            ≡ done (p', value (dealt of_int f.num_channels (take (length p.ib.numbers) (left d)))))
          × (p'.decoder ≡ some d')
          × (left d' ≡ drop (length p.ib.numbers) (left d))
          × (p'.ib.format ≡ some f)
          × (length p'.ib.numbers ≡ min (length p.ib.numbers) (length (left d)))
    pump-block p d f has_decoder has_format some_room some_left =
        let r = lib.pcm_buffer d p.ib in
        let filled = reads d p.ib in
        let n = min (length p.ib.numbers) (length (left d)) in
        let q = record p { decoder = some r.0; ib = r.1.0 } in
        let ib = record r.1.0 { numbers = take n r.1.0.numbers } in
        let cut : ib.numbers ≡ take (length p.ib.numbers) (left d) =
          take-min r.1.0.numbers (length p.ib.numbers) (length (left d)) filled.size
          ∙ filled.numbers in
        (
          record q { ib = ib },
          r.0,
          pump-after_pcm p d has_decoder
              ∙ after_pcm-some n q (omega arith) (omega (arith, filled.size))
              ∙ ap (λ s. done (record q { ib = ib }, s))
                  (as_samples-dealt of_int zero_sample num_frames ib f (filled.format ∙ has_format))
              ∙ ap (λ l. done (record q { ib = ib }, value (dealt of_int f.num_channels l))) cut,
          refl,
          filled.rest,
          filled.format ∙ has_format,
          length-take n r.1.0.numbers ∙ omega (arith, filled.size),
        )

    -- A whole file: the pump returns its numbers in blocks of the buffer's size, the last of
    -- them with what is left, each dealt out to the channels, and then the end of the pipe.
    pub pump_all-blocks :
        (fuel : ℕ) (p : Pump F D) (d : D) (f : Format)
        → p.decoder ≡ some d
        → p.ib.format ≡ some f
        → 1 ≤ length p.ib.numbers
        → length (left d) < fuel
        → pump_all lib of_int zero_sample num_frames fuel p
          ≡ done (
            map (dealt of_int f.num_channels) (blocks fuel (length p.ib.numbers) (left d)),
            some end_of_pipe,
          )
    unfolding pump_all
    pump_all-blocks zero p d f has_decoder has_format some_room enough = absurd (omega arith)
    pump_all-blocks (suc fuel) p d f has_decoder has_format some_room enough =
        let size = length p.ib.numbers in
        elim (Bool-cases (length (left d) == 0)) [
          | inl empty ↦
              let none_left : length (left d) ≡ 0 = ground arith in
              let (p', e) = pump-end p d has_decoder none_left in
              rw (e, blocks-end (suc fuel) size (left d) none_left) refl
          | inr more ↦
              let some_left : 1 ≤ length (left d) = ground arith in
              let (p', d', e, has', rest, format', size') =
                pump-block p d f has_decoder has_format some_room some_left in
              let fewer : length (left d') < fuel =
                omega (arith, ap length rest, length-drop size (left d)) in
              let next = pump_all-blocks fuel p' d' f has' format' (omega arith) fewer in
              let same : blocks fuel (length p'.ib.numbers) (left d')
                  ≡ blocks fuel size (drop size (left d)) =
                ap₂ (blocks fuel) size' rest ∙ blocks-min fuel size (left d) in
              let all =
                next
                ∙ ap (λ l. done (map (dealt of_int f.num_channels) l, some end_of_pipe)) same in
              rw (e, all, blocks-some fuel size (left d) some_left) refl
        ]
