-- ===== src/Mp3/Deinterleaving.antt =====
-- phono.go: `ReadInts` into an empty buffer of two channels, as the mp3 pump uses it.
use phono.Base.{
  ℕ, zero, suc, ◌+◌, ◌≤◌, ◌≡◌, refl, ap, ◌∙◌, List, [], ◌∷◌, none, some, map, length, get_elem?,
  arith,
}
use phono.Base.Int.{ℤ}
use phono.Buffer.{empty_buffer}
use phono.Pcm.{read_channel, read_channels, read_ints}

-- The elements at even positions, and those at odd ones.
abbrev pub evens : {A : Type 0} → List A → List A
evens [] = []
evens (x ∷ []) = x ∷ []
evens (x ∷ y ∷ xs) = x ∷ evens xs

abbrev pub odds : {A : Type 0} → List A → List A
odds [] = []
odds (x ∷ xs) = evens xs

module _ {A : Type 0} (of_int : ℤ → A) where
  read_channel_shift :
      (f j : ℕ) (x : ℤ) (xs : List ℤ)
      → read_channel of_int f 2 (suc j) (x ∷ xs) ≡ read_channel of_int f 2 j xs
  unfolding read_channel
  read_channel_shift zero j x xs = refl
  read_channel_shift (suc f) j x xs =
      let next : suc j + 2 ≡ suc (j + 2) = omega arith in
      let rest : read_channel of_int f 2 (suc j + 2) (x ∷ xs) ≡ read_channel of_int f 2 (j + 2) xs =
        rw next (read_channel_shift f (j + 2) x xs) in
      ap (λ l. elim (get_elem? xs j) [ none ↦ [] | some n ↦ of_int n ∷ l ]) rest

  read_channel_end : (f j : ℕ) → read_channel of_int f 2 j [] ≡ []
  unfolding read_channel
  read_channel_end zero j = refl
  read_channel_end (suc f) j = refl

  read_channel-evens :
      (f : ℕ) (xs : List ℤ) → length xs ≤ f → read_channel of_int f 2 0 xs ≡ map of_int (evens xs)
  unfolding read_channel
  read_channel-evens zero [] h = refl
  read_channel-evens zero (x ∷ xs) h = absurd (omega arith)
  read_channel-evens (suc f) [] h = refl
  read_channel-evens (suc f) (x ∷ []) h =
      ap (◌∷◌ (of_int x)) (read_channel_shift f 1 x [] ∙ read_channel_end f 1)
  read_channel-evens (suc f) (x ∷ y ∷ xs) h = ap (◌∷◌ (of_int x)) (
      read_channel_shift f 1 x (y ∷ xs)
      ∙ read_channel_shift f 0 y xs
      ∙ read_channel-evens f xs (omega arith))

  read_channel-odds :
      (f : ℕ) (xs : List ℤ) → length xs ≤ f → read_channel of_int f 2 1 xs ≡ map of_int (odds xs)
  read_channel-odds f [] h = read_channel_end f 1
  read_channel-odds f (x ∷ xs) h =
      read_channel_shift f 0 x xs ∙ read_channel-evens f xs (omega arith)

  pub read_ints-empty_buffer :
      (zero_sample : A) (bs : ℕ) (xs : List ℤ)
      → read_ints of_int (empty_buffer zero_sample 2 bs) xs
        ≡ some (map of_int (evens xs) ∷ map of_int (odds xs) ∷ [])
  unfolding read_ints read_channels empty_buffer
  read_ints-empty_buffer zero_sample bs xs =
      rw
        (
          read_channel-evens (length xs) xs (omega arith),
          read_channel-odds (length xs) xs (omega arith),
        )
        refl
