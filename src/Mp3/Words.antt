-- ===== src/Mp3/Words.antt =====
-- mp3/sink.go: the bytes that the sink writes, read again as int16 numbers.
use phono.Base.{
  ℕ, ◌+◌, ◌*◌, ◌/◌, ◌%◌, ◌^◌, ◌<◌, ◌≡◌, refl, sym, ap, ap₂, ◌∙◌, map, All, List, [], ◌∷◌, ◌++◌,
  append_nil, Option, length, ltb, arith, Bool-cases, inl, inr,
}
use mathlib.Core.List.{append_assoc}
use mathlib.Core.Path.{subst}
use phono.Base.Int.{ℤ, pos, negsuc}
use phono.Base.Outcome.{done}
use phono.Buffer.{Buffer}
use phono.Pcm.{ints}
use phono.Mp3.Sinking.{Lame, Sink, low16, signed16, int16, binary_write, write_all, elements, sink}

-- Two bytes are an int16, the low one first.
abbrev pub words : List ℕ → List ℤ
words [] = []
words (lo ∷ []) = []
words (lo ∷ hi ∷ bytes) = signed16 (lo + 256 * hi) ∷ words bytes

abbrev pub IsInt16 : ℤ → Type 0
IsInt16 (pos n) = n < 2 ^ 15
IsInt16 (negsuc n) = n < 2 ^ 15

-- The bytes of one number.
abbrev pub bytes_of : ℤ → List ℕ
bytes_of v = low16 (int16 v) % 256 ∷ low16 (int16 v) / 256 ∷ []

abbrev pub all_bytes : List ℤ → List ℕ
all_bytes [] = []
all_bytes (v ∷ vs) = bytes_of v ++ all_bytes vs

write_all_lem : (vs : List ℤ) (buf : List ℕ) → write_all vs buf ≡ buf ++ all_bytes vs
unfolding write_all binary_write
write_all_lem [] buf = sym (append_nil buf)
write_all_lem (v ∷ vs) buf =
    write_all_lem vs (buf ++ bytes_of v) ∙ append_assoc buf (bytes_of v) (all_bytes vs)

low16_lt : (z : ℤ) → low16 z < 2 ^ 16
unfolding low16
low16_lt (pos n) = ground arith
low16_lt (negsuc n) = ground arith

low16_signed : (n : ℕ) → n < 2 ^ 16 → low16 (signed16 n) ≡ n
unfolding low16
low16_signed n h = elim (Bool-cases (ltb n (2 ^ 15))) [
  | inl small ↦ rw small (ground arith)
  | inr large ↦ rw large (ground arith)
]

low16-int16 : (z : ℤ) → low16 (int16 z) ≡ low16 z
unfolding int16
low16-int16 z = low16_signed (low16 z) (low16_lt z)

pub int16-IsInt16 : (z : ℤ) → IsInt16 (int16 z)
unfolding int16
int16-IsInt16 z = elim (Bool-cases (ltb (low16 z) (2 ^ 15))) [
  | inl small ↦ rw small (ground arith)
  | inr large ↦ rw large (ground (arith, low16_lt z))
]

int16_id : (z : ℤ) → IsInt16 z → int16 z ≡ z
unfolding int16 low16
int16_id (pos n) h = ground arith
int16_id (negsuc n) h = ground arith

words_all : (vs : List ℤ) → words (all_bytes vs) ≡ map int16 vs
unfolding int16
words_all [] = refl
words_all (v ∷ vs) =
    let x = low16 (int16 v) in
    let whole : x % 256 + 256 * (x / 256) ≡ low16 v = omega (arith, low16-int16 v) in
    ap₂ (λ n l. signed16 n ∷ l) whole (words_all vs)

bytes_all :
    (vs : List ℤ) → All (λ b. b < 256) (all_bytes vs) × (length (all_bytes vs) ≡ 2 * length vs)
bytes_all [] = (tt, refl)
bytes_all (v ∷ vs) =
    let (small, even) = bytes_all vs in
    ((omega arith, (omega (arith, low16_lt (int16 v)), small)), omega (arith, even))

All_int16 : (vs : List ℤ) → All IsInt16 (map int16 vs)
All_int16 [] = tt
All_int16 (v ∷ vs) = (int16-IsInt16 v, All_int16 vs)

pub map-int16_id : (vs : List ℤ) → All IsInt16 vs → map int16 vs ≡ vs
map-int16_id [] h = refl
map-int16_id (v ∷ vs) h = ap₂ (λ x l. x ∷ l) (int16_id v h.0) (map-int16_id vs h.1)

-- For a buffer that has numbers the sink passes on to the lame writer one run of bytes, and returns its
-- error: two bytes below 256 for every number, the low one first, which read again are int16 numbers,
-- the numbers of the buffer as far as these are int16, and wrapped around otherwise.
pub sink-int16 :
    {F W A : Type 0} (lame : Lame F W) (to_int : A → ℤ) (b : Buffer A) (s : Sink F W)
    (numbers : Option (List ℤ))
    → ints to_int b ≡ done numbers
    → (bytes : List ℕ) × (sink lame to_int b s
        ≡ done (record s { wr = (lame.write s.wr bytes).0 }, (lame.write s.wr bytes).1))
      × (length bytes ≡ 2 * length (elements numbers))
      × All (λ b. b < 256) bytes
      × (words bytes ≡ map int16 (elements numbers))
      × All IsInt16 (words bytes)
unfolding sink
sink-int16 lame to_int b s numbers is =
    let vs = elements numbers in
    let all = words_all vs in
    (
      all_bytes vs,
      rw is (
          ap (λ l. done (record s { wr = (lame.write s.wr l).0 }, (lame.write s.wr l).1))
            (write_all_lem vs [])),
      (bytes_all vs).1,
      (bytes_all vs).0,
      all,
      subst (All IsInt16) (sym all) (All_int16 vs),
    )
