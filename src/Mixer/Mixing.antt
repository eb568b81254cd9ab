-- ===== src/Mixer/Mixing.antt =====
-- mixer/mixer.go: what `sum` returns.
use phono.Base.{
  ℕ, zero, suc, ◌+◌, ◌<◌, ◌≤◌, ◌≡◌, refl, ap, ◌∙◌, List, [], ◌∷◌, none, some, map, get_elem?,
  length, arith,
}
use phono.Base.Outcome.{done}
use phono.Pcm.{index}
use phono.Mixer.{next_sum, sum_from, sum_channel, sum_channels, sum}

module _ {B : Type 0} (P : ℕ → B → Type 0) where
  -- A list of n elements, with a property of each and its number, counted from s.
  abbrev pub AllFrom : ℕ → ℕ → List B → Type 0
  AllFrom s n r = (i : ℕ) → i < n → (y : B) × (get_elem? r i ≡ some y) × P (s + i) y

  AllFrom-cons :
      (s n : ℕ) (y : B) (r : List B)
      → P s y
      → AllFrom (suc s) n r
      → (i : ℕ) → i < suc n
      → (z : B) × (get_elem? (y ∷ r) i ≡ some z) × P (s + i) z
  AllFrom-cons s n y r p h zero lt = let same : s + 0 ≡ s = omega arith in (y, refl, rw same p)
  AllFrom-cons s n y r p h (suc i) lt =
      let (z, e, q) = h i (omega arith) in
      let same : s + suc i ≡ suc s + i = omega arith in (z, e, rw same q)

module _ {A : Type 0} where
  -- What the buffers have at sample s of channel c, up to the first buffer that is shorter.
  abbrev pub Leads : ℕ → ℕ → List (List (List A)) → List A → Type 0
  Leads c s [] xs = xs ≡ []
  Leads c s (b ∷ bs) [] = (ch : List A) × (get_elem? b c ≡ some ch) × (get_elem? ch s ≡ none)
  Leads c s (b ∷ bs) (x ∷ xs) =
      ((ch : List A) × (get_elem? b c ≡ some ch) × (get_elem? ch s ≡ some x)) × Leads c s bs xs

module _ {A : Type 0} (add div : A → A → A) (increment : A → A) (nought : A) where
  abbrev pub add_all : A → List A → A
  add_all n [] = n
  add_all n (x ∷ xs) = add_all (add n x) xs

  abbrev pub count_all : A → List A → A
  count_all n [] = n
  count_all n (x ∷ xs) = count_all (increment n) xs

  -- The sum of samples over their number.
  abbrev pub mean : List A → A
  mean xs = div (add_all nought xs) (count_all nought xs)

  index-some :
      {B : Type 0} (l : List B) (i : ℕ) {y : B} → get_elem? l i ≡ some y → index l i ≡ done y
  unfolding index
  index-some l i e = rw (e, index) refl

  sum_from-next :
      (c s : ℕ) (b : List (List A)) (bs : List (List (List A))) (n k : A) (ch : List A)
      → get_elem? b c ≡ some ch
      → sum_from add div increment nought c s (map some (b ∷ bs)) n k
        ≡ next_sum add div increment nought
            (sum_from add div increment nought c s (map some bs))
            (get_elem? ch s)
            n
            k
  unfolding sum_from
  sum_from-next c s b bs n k ch e = rw (sum_from, index-some b c e) refl

  sum_from_lem :
      (c s : ℕ) (bs : List (List (List A))) (xs : List A) (n k : A)
      → Leads c s bs xs
      → sum_from add div increment nought c s (map some bs) n k
        ≡ done (add_all n xs, count_all k xs)
  unfolding sum_from next_sum
  sum_from_lem c s [] xs n k h = rw h refl
  sum_from_lem c s (b ∷ bs) [] n k (ch, e, e') =
      sum_from-next c s b bs n k ch e
      ∙ ap
          (λ o.
            next_sum add div increment nought (sum_from add div increment nought c s (map some bs))
              o n k)
          e'
  sum_from_lem c s (b ∷ bs) (x ∷ xs) n k ((ch, e, e'), h) =
      sum_from-next c s b bs n k ch e
      ∙ ap
          (λ o.
            next_sum add div increment nought (sum_from add div increment nought c s (map some bs))
              o n k)
          e'
      ∙ sum_from_lem c s bs xs (add n x) (increment k) h

  sum_channel_lem :
      (c n s : ℕ) (bs : List (List (List A))) (xs : ℕ → List A)
      → ((i : ℕ) → s ≤ i → i < s + n → Leads c i bs (xs i))
      → (r : List A) × (sum_channel add div increment nought c n s (map some bs) ≡ done r)
        × (length r ≡ n)
        × AllFrom (λ i y. y ≡ mean (xs i)) s n r
  unfolding sum_channel
  sum_channel_lem c zero s bs xs h = ([], refl, refl, λ i lt. absurd (omega arith))
  sum_channel_lem c (suc n) s bs xs h =
      let first = sum_from_lem c s bs (xs s) nought nought (h s (omega arith) (omega arith)) in
      let (r, e, l, all) =
        sum_channel_lem c n (suc s) bs xs (λ i low high. h i (omega arith) (omega arith)) in
      (
        mean (xs s) ∷ r,
        rw (first, e) refl,
        ap suc l,
        AllFrom-cons (λ i y. y ≡ mean (xs i)) s n (mean (xs s)) r refl all,
      )

  -- A channel of the result.
  abbrev pub IsMixed : ℕ → (ℕ → ℕ → List A) → ℕ → List A → Type 0
  IsMixed n xs c ch = (length ch ≡ n) × AllFrom (λ i y. y ≡ mean (xs c i)) 0 n ch

  sum_channels_lem :
      (m n c : ℕ) (bs : List (List (List A))) (xs : ℕ → ℕ → List A)
      → ((k i : ℕ) → c ≤ k → k < c + m → i < n → Leads k i bs (xs k i))
      → (r : List (List A)) × (sum_channels add div increment nought m n c (map some bs) ≡ done r)
        × (length r ≡ m)
        × AllFrom (IsMixed n xs) c m r
  unfolding sum_channels
  sum_channels_lem zero n c bs xs h = ([], refl, refl, λ i lt. absurd (omega arith))
  sum_channels_lem (suc m) n c bs xs h =
      let (ch, e, l, all) =
        sum_channel_lem c n 0 bs (xs c)
          (λ i low high. h c i (omega arith) (omega arith) (omega arith)) in
      let (r, e', l', all') =
        sum_channels_lem m n (suc c) bs xs
          (λ k i low high lt. h k i (omega arith) (omega arith) lt) in
      (ch ∷ r, rw (e, e') refl, ap suc l', AllFrom-cons (IsMixed n xs) c m ch r (l, all) all')

  -- The mix of buffers that have the channels which the mixer has: it has as many channels and
  -- samples as the mixer says, and each sample is the sum over the number of the samples which the
  -- buffers have at its place, up to the first buffer that is too short: what a longer buffer
  -- behind that one has there is left out, and if the first buffer is too short then zero is
  -- divided by zero. The frame keeps no buffer.
  pub sum-mean :
      (num_channels buffer_size : ℕ) (bs : List (List (List A))) (xs : ℕ → ℕ → List A)
      → ((c s : ℕ) → c < num_channels → s < buffer_size → Leads c s bs (xs c s))
      → (r : List (List A)) × (sum add div increment nought num_channels buffer_size (map some bs)
          ≡ done (some r, []))
        × (length r ≡ num_channels)
        × AllFrom (IsMixed buffer_size xs) 0 num_channels r
  unfolding sum
  sum-mean num_channels buffer_size bs xs h =
      let (r, e, l, all) =
        sum_channels_lem num_channels buffer_size 0 bs xs
          (λ k i low high lt. h k i (omega arith) lt) in
      (r, rw e refl, l, all)
