-- ===== src/Track/Pieces.antt =====
-- track/track.go: what the clips of a track hold, apart from their links.
use phono.Base.{
  ℕ, zero, suc, ◌+◌, ◌-◌, ap₂, ltb, ◌≤◌, ◌<◌, ◌^◌, ◌≡◌, refl, sym, ap, ◌∙◌, List, [], ◌∷◌, ◌++◌,
  Option, none, some, length, get_elem?, set, ◌==◌, if◌then◌else◌, arith, true, false,
}
use phono.Base.Int.{sub64_le, add64_pos, ℤ, pos, add64, sub64, wrap64, ◌+ℤ◌, ◌-ℤ◌, ltb_ℤ}
use phono.Buffer.{Buffer, Clip}
use phono.Track.{Node}
use phono.Track.Links.{has}

-- A clip at a position, with a length that is not negative.
pub record Piece (A : Type 0) : Type 0 where
  pub at : ℕ
  pub len : ℕ
  pub start : ℤ
  pub buffer : Buffer A

module _ {A : Type 0} where
  abbrev pub clip_of : Piece A → Clip A
  clip_of e = record { buffer = e.buffer; start = e.start; len = pos e.len }

  abbrev pub entry : Node A → ℤ × Clip A
  entry n = (n.at, n.clip)

  abbrev pub entry_of : Option (Node A) → Option (ℤ × Clip A)
  entry_of none = none
  entry_of (some n) = some (entry n)

  abbrev pub content : List (Node A) → ℕ → Option (ℤ × Clip A)
  content heap k = entry_of (get_elem? heap k)

  abbrev pub Same : List (Node A) → List (Node A) → Type 0
  Same heap heap' = (k : ℕ) → content heap' k ≡ content heap k

  pub content-set :
      (heap : List (Node A)) (x k : ℕ) (n y : Node A)
      → get_elem? heap x ≡ some n
      → content (set heap x y) k ≡ (if x == k then some (entry y) else content heap k)
  content-set [] x k n y is = cc
  content-set (m ∷ heap) zero zero n y is = refl
  content-set (m ∷ heap) zero (suc k) n y is = ground arith
  content-set (m ∷ heap) (suc x) zero n y is = ground arith
  content-set (m ∷ heap) (suc x) (suc k) n y is = content-set heap x k n y is ∙ ground arith

  -- Other links do not change what a clip holds.
  pub set-Same :
      (heap : List (Node A)) (x : ℕ) (n y : Node A)
      → get_elem? heap x ≡ some n
      → entry y ≡ entry n
      → Same heap (set heap x y)
  set-Same [] x n y is e k = cc
  set-Same (m ∷ heap) zero n y is e zero = ap some e ∙ sym (ap entry_of is)
  set-Same (m ∷ heap) zero n y is e (suc k) = refl
  set-Same (m ∷ heap) (suc x) n y is e zero = refl
  set-Same (m ∷ heap) (suc x) n y is e (suc k) = set-Same heap x n y is e k

  -- The clips ns hold these pieces.
  abbrev pub Holds : List (Node A) → List ℕ → List (Piece A) → Type 0
  Holds heap [] [] = Unit {0}
  Holds heap [] (e ∷ es) = ⊥
  Holds heap (n ∷ ns) [] = ⊥
  Holds heap (n ∷ ns) (e ∷ es) = (content heap n ≡ some (pos e.at, clip_of e)) × Holds heap ns es

  pub Holds-same :
      (heap heap' : List (Node A)) (ns : List ℕ) (es : List (Piece A))
      → ((k : ℕ) → has k ns ≡ true → content heap' k ≡ content heap k)
      → Holds heap ns es
      → Holds heap' ns es
  Holds-same heap heap' [] [] same h = tt
  Holds-same heap heap' [] (e ∷ es) same h = h
  Holds-same heap heap' (n ∷ ns) [] same h = h
  Holds-same heap heap' (n ∷ ns) (e ∷ es) same h =
      (same n (ground arith) ∙ h.0, Holds-same heap heap' ns es (λ k is. same k (ground arith)) h.1)

  pub Holds-append :
      (heap : List (Node A)) (ns ms : List ℕ) (es fs : List (Piece A))
      → Holds heap ns es
      → Holds heap ms fs
      → Holds heap (ns ++ ms) (es ++ fs)
  Holds-append heap [] ms [] fs h g = g
  Holds-append heap [] ms (e ∷ es) fs h g = absurd h
  Holds-append heap (n ∷ ns) ms [] fs h g = absurd h
  Holds-append heap (n ∷ ns) ms (e ∷ es) fs h g = (h.0, Holds-append heap ns ms es fs h.1 g)

  -- The pieces of two parts of a list.
  pub Holds-split :
      (heap : List (Node A)) (ns ms : List ℕ) (es : List (Piece A))
      → Holds heap (ns ++ ms) es
      → (fs : List (Piece A)) × (gs : List (Piece A)) × (es ≡ fs ++ gs)
        × Holds heap ns fs
        × Holds heap ms gs
  Holds-split heap [] ms es h = ([], es, refl, tt, h)
  Holds-split heap (n ∷ ns) ms [] h = absurd h
  Holds-split heap (n ∷ ns) ms (e ∷ es) h =
      let (fs, gs, parts, first, second) = Holds-split heap ns ms es h.1 in
      (e ∷ fs, gs, ap (◌∷◌ e) parts, (h.0, first), second)

-- The pieces lie one behind the other from `lo` on, and their ends are int64.
abbrev pub Apart : {A : Type 0} → ℕ → List (Piece A) → Type 0
Apart lo [] = Unit
Apart lo (e ∷ es) = (lo ≤ e.at) × (e.at + e.len < 2 ^ 63) × Apart (e.at + e.len) es

-- The numbers of `alignNextClip` and `alignPrevClip`.
pub overlap_pos :
    (a l b : ℕ)
    → a + l < 2 ^ 63
    → b < a + l
    → add64 (sub64 (pos a) (pos b)) (pos l) ≡ pos (a + l - b)
unfolding add64 sub64 wrap64 ◌+ℤ◌ ◌-ℤ◌
overlap_pos a l b small over = ground arith

pub overlap_none :
    (a l b : ℕ)
    → a + l < 2 ^ 63
    → b < 2 ^ 63
    → a + l ≤ b
    → ltb_ℤ (pos 0) (add64 (sub64 (pos a) (pos b)) (pos l)) ≡ false
unfolding add64 sub64 wrap64 ◌+ℤ◌ ◌-ℤ◌
overlap_none a l b small small' free = ground arith

module _ {A : Type 0} where
  -- A piece that starts at s only.
  abbrev pub from_on : ℕ → Piece A → Piece A
  from_on s e = record e { at = s; len = e.at + e.len - s; start = add64 e.start (pos (s - e.at)) }

  -- What is left of the pieces behind a new one that ends at s.
  abbrev pub cut_behind : ℕ → List (Piece A) → List (Piece A)
  cut_behind s [] = []
  cut_behind s (e ∷ es) =
      if ltb e.at s
      then (if ltb (s - e.at) e.len then from_on s e ∷ es else cut_behind s es)
      else e ∷ es

  pub Holds-length :
      (heap : List (Node A)) (ns : List ℕ) (es : List (Piece A))
      → Holds heap ns es
      → length ns ≡ length es
  Holds-length heap [] [] h = refl
  Holds-length heap [] (e ∷ es) h = absurd h
  Holds-length heap (n ∷ ns) [] h = absurd h
  Holds-length heap (n ∷ ns) (e ∷ es) h = ap suc (Holds-length heap ns es h.1)

  -- `alignNextClip` shortens a clip.
  abbrev pub shorten_entry : ℤ → ℤ × Clip A → ℤ × Clip A
  shorten_entry overlap (at, c) =
      (add64 at overlap, record c { start = add64 c.start overlap; len = sub64 c.len overlap })

  pub shorten_entry-from_on :
      (s : ℕ) (f : Piece A)
      → f.at ≤ s
      → s - f.at ≤ f.len
      → f.at + f.len < 2 ^ 63
      → shorten_entry (pos (s - f.at)) (pos f.at, clip_of f) ≡ (pos s, clip_of (from_on s f))
  shorten_entry-from_on s f before within small =
      ap₂
        (λ a l. (a, record { buffer = f.buffer; start = add64 f.start (pos (s - f.at)); len = l }))
        (add64_pos f.at (s - f.at) (omega arith) ∙ ap pos (omega arith))
        (sub64_le f.len (s - f.at) within (omega arith) ∙ ap pos (omega arith))
