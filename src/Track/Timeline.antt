-- ===== src/Track/Timeline.antt =====
-- track/track.go: what a new clip does to the pieces of a track, described piece by piece.
use mathlib.Core.List.{append_assoc}
use mathlib.Core.Path.{subst}
use phono.Base.{
  ℕ, ◌+◌, ◌-◌, ◌≤◌, ◌<◌, ◌≡◌, refl, sym, ap, ap₂, ◌∙◌, min, List, [], ◌∷◌, ◌++◌, All, map, ltb,
  if◌then◌else◌, arith, true, false, Bool-cases, inl, inr,
}
use phono.Base.Int.{pos, pos_part}
use phono.Buffer.{Clip, clip}
use phono.Track.Pieces.{Piece, Apart, cut_behind}

module _ {A : Type 0} where
  -- The pieces that start before a, and the others.
  abbrev pub earlier : ℕ → List (Piece A) → List (Piece A)
  earlier a [] = []
  earlier a (f ∷ fs) = if ltb f.at a then f ∷ earlier a fs else []

  abbrev pub later : ℕ → List (Piece A) → List (Piece A)
  later a [] = []
  later a (f ∷ fs) = if ltb f.at a then later a fs else f ∷ fs

  -- A piece that ends at a at the latest.
  abbrev pub until : ℕ → Piece A → Piece A
  until a f = record f { len = min f.len (a - f.at) }

  abbrev pub piece : ℕ → Clip A → Piece A
  piece a c = record { at = a; len = pos_part c.len; start = c.start; buffer = c.buffer }

  -- What goes on behind a new piece e, of a piece f that started before: the code lets it go on with
  -- sample number f.len + e.len of its buffer, as far as the buffer goes.
  abbrev pub rest : Piece A → Piece A → Piece A
  rest e f =
      piece (e.at + e.len)
        (clip f.buffer (pos (f.len + e.len)) (pos (f.at + f.len - (e.at + e.len))))

  abbrev pub rest_of : Piece A → Piece A → List (Piece A)
  rest_of e f = if ltb (e.at + e.len) (f.at + f.len) then rest e f ∷ [] else []

  abbrev pub rests : Piece A → List (Piece A) → List (Piece A)
  rests e [] = []
  rests e (f ∷ fs) = rest_of e f ++ rests e fs

  -- The pieces of a track with a new one.
  abbrev pub added : Piece A → List (Piece A) → List (Piece A)
  added e es =
      map (until e.at) (earlier e.at es)
      ++ (e ∷ (rests e (earlier e.at es) ++ cut_behind (e.at + e.len) (later e.at es)))

  pub earlier-append :
      (a : ℕ) (fs gs : List (Piece A))
      → All (λ f. f.at < a) fs
      → earlier a gs ≡ []
      → later a gs ≡ gs
      → (earlier a (fs ++ gs) ≡ fs) × (later a (fs ++ gs) ≡ gs)
  earlier-append a [] gs before none_left whole = (none_left, whole)
  earlier-append a (f ∷ fs) gs before none_left whole =
      let (first, second) = earlier-append a fs gs before.1 none_left whole in
      let here : ltb f.at a ≡ true = ground (arith, before.0) in
      (rw here (ap (◌∷◌ f) first), rw here second)

  -- The end of the last piece.
  abbrev pub end_of_all : ℕ → List (Piece A) → ℕ
  end_of_all lo [] = lo
  end_of_all lo (e ∷ es) = end_of_all (e.at + e.len) es

  pub Apart-append :
      (lo : ℕ) (fs gs : List (Piece A))
      → Apart lo fs
      → Apart (end_of_all lo fs) gs
      → Apart lo (fs ++ gs)
  Apart-append lo [] gs h g = g
  Apart-append lo (f ∷ fs) gs h g = (h.0, h.1, Apart-append (f.at + f.len) fs gs h.2 g)

  pub Apart-split :
      (lo : ℕ) (fs gs : List (Piece A))
      → Apart lo (fs ++ gs)
      → Apart lo fs × Apart (end_of_all lo fs) gs
  Apart-split lo [] gs h = (tt, h)
  Apart-split lo (f ∷ fs) gs h =
      let (first, second) = Apart-split (f.at + f.len) fs gs h.2 in ((h.0, h.1, first), second)

  pub Apart-mono : (lo lo' : ℕ) (es : List (Piece A)) → lo' ≤ lo → Apart lo es → Apart lo' es
  Apart-mono lo lo' [] le h = tt
  Apart-mono lo lo' (e ∷ es) le h = (omega (arith, h.0), h.1, h.2)

  pub end_of_all-append :
      (lo : ℕ) (fs : List (Piece A)) (f : Piece A) → end_of_all lo (fs ++ f ∷ []) ≡ f.at + f.len
  end_of_all-append lo [] f = refl
  end_of_all-append lo (g ∷ fs) f = end_of_all-append (g.at + g.len) fs f

  -- Pieces that end before a are not cut and leave no rest.
  pub until_free :
      (a lo : ℕ) (fs : List (Piece A))
      → Apart lo fs
      → end_of_all lo fs ≤ a
      → (map (until a) fs ≡ fs) × (lo ≤ a)
  until_free a lo [] h le = (refl, le)
  until_free a lo (f ∷ fs) h le =
      let (same, within) = until_free a (f.at + f.len) fs h.2 le in
      let len : min f.len (a - f.at) ≡ f.len = omega arith in
      (ap₂ (λ n l. record f { len = n } ∷ l) len same, omega (arith, h.0))

  pub rests_free :
      (e : Piece A) (lo : ℕ) (fs : List (Piece A))
      → Apart lo fs
      → end_of_all lo fs ≤ e.at + e.len
      → rests e fs ≡ []
  rests_free e lo [] h le = refl
  rests_free e lo (f ∷ fs) h le =
      let none_left = rests_free e (f.at + f.len) fs h.2 le in
      let within = until_free (e.at + e.len) (f.at + f.len) fs h.2 le in
      let out : ltb (e.at + e.len) (f.at + f.len) ≡ false = ground (arith, within.1) in
      rw out none_left

  pub rests-append :
      (e : Piece A) (fs gs : List (Piece A)) → rests e (fs ++ gs) ≡ rests e fs ++ rests e gs
  rests-append e [] gs = refl
  rests-append e (f ∷ fs) gs =
      ap (◌++◌ (rest_of e f)) (rests-append e fs gs)
      ∙ sym (append_assoc (rest_of e f) (rests e fs) (rests e gs))

  pub cut_behind-Apart :
      (s : ℕ) (lo : ℕ) (es : List (Piece A)) → Apart lo es → Apart s (cut_behind s es)
  cut_behind-Apart s lo [] h = tt
  cut_behind-Apart s lo (e ∷ es) h = elim (Bool-cases (ltb e.at s)) [
    | inr free ↦ rw free (ground arith, h.1, h.2)
    | inl over ↦ elim (Bool-cases (ltb (s - e.at) e.len)) [
      | inl longer ↦
          let end : s + (e.at + e.len - s) ≡ e.at + e.len = ground arith in
          rw (over, longer) (omega arith, omega (arith, h.1), subst (λ k. Apart k es) (sym end) h.2)
      | inr covered ↦ rw (over, covered) (cut_behind-Apart s (e.at + e.len) es h.2)
    ]
  ]

  pub cut_behind_free :
      (s lo : ℕ) (es : List (Piece A)) → Apart lo es → s ≤ lo → cut_behind s es ≡ es
  cut_behind_free s lo [] h le = refl
  cut_behind_free s lo (e ∷ es) h le =
      let out : ltb e.at s ≡ false = ground (arith, h.0) in rw out refl

  pub earlier_later :
      (a : ℕ) (es : List (Piece A))
      → (es ≡ earlier a es ++ later a es) × All (λ f. f.at < a) (earlier a es)
  earlier_later a [] = (refl, tt)
  earlier_later a (f ∷ fs) =
      let (parts, before) = earlier_later a fs in
      elim (Bool-cases (ltb f.at a)) [
        | inl here ↦ rw here (ap (◌∷◌ f) parts, (ground arith, before))
        | inr free ↦ rw free (refl, tt)
      ]

  pub earlier-none :
      (s : ℕ) (es : List (Piece A)) → Apart s es → (earlier s es ≡ []) × (later s es ≡ es)
  earlier-none s [] h = (refl, refl)
  earlier-none s (f ∷ fs) h =
      let out : ltb f.at s ≡ false = ground (arith, h.0) in (rw out refl, rw out refl)

  pub end_of_all_le : (lo : ℕ) (es : List (Piece A)) → Apart lo es → lo ≤ end_of_all lo es
  end_of_all_le lo [] h = omega arith
  end_of_all_le lo (f ∷ fs) h = omega (arith, h.0, end_of_all_le (f.at + f.len) fs h.2)
