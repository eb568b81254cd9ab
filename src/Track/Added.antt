-- ===== src/Track/Added.antt =====
-- track/track.go: the pieces of a track with a new one, by the last piece that starts earlier.
use mathlib.Core.List.{map-append}
use mathlib.Core.Path.{subst}
use phono.Base.{
  none, some, ℕ, ◌+◌, ◌-◌, ◌^◌, ◌≤◌, ◌<◌, ◌≡◌, refl, sym, ap, ap₂, ◌∙◌, min, map, All, List, [],
  ◌∷◌, ◌++◌, append_nil, ltb, leb, arith, false, Bool-cases, inl, inr,
}
use phono.Base.Int.{sub64_le, pos, pos_part, leb_ℤ, add64, add64_pos}
use phono.Buffer.{Buffer, clip, size, starts_outside}
use phono.Track.Pieces.{Piece, clip_of, Apart, cut_behind}
use phono.Track.Timeline.{
  earlier, later, until, rest, rest_of, rests, added, end_of_all, Apart-split, Apart-mono,
  until_free, rests_free, rests-append, cut_behind-Apart, cut_behind_free, earlier_later,
  end_of_all_le,
}

module _ {A : Type 0} where
  -- The pieces of a track are the earlier and the later ones.
  pub Apart-earlier :
      (a : ℕ) (es : List (Piece A))
      → Apart 0 es
      → Apart 0 (earlier a es) × Apart (end_of_all 0 (earlier a es)) (later a es)
  Apart-earlier a es h =
      Apart-split 0 (earlier a es) (later a es) (subst (Apart 0) (earlier_later a es).0 h)

  pub added_free :
      (e : Piece A) (es : List (Piece A))
      → Apart 0 es
      → end_of_all 0 (earlier e.at es) ≤ e.at
      → added e es ≡ earlier e.at es ++ e ∷ cut_behind (e.at + e.len) (later e.at es)
  added_free e es h free =
      let parts = Apart-earlier e.at es h in
      let same = until_free e.at 0 (earlier e.at es) parts.0 free in
      let none_left = rests_free e 0 (earlier e.at es) parts.0 (omega arith) in
      ap₂ (λ l r. l ++ e ∷ (r ++ cut_behind (e.at + e.len) (later e.at es))) same.0 none_left

  pub added_over :
      (e : Piece A) (es fs : List (Piece A)) (f : Piece A)
      → Apart 0 es
      → earlier e.at es ≡ fs ++ f ∷ []
      → f.at < e.at
      → added e es
        ≡ (fs ++ until e.at f ∷ [])
          ++ e ∷ (rest_of e f ++ cut_behind (e.at + e.len) (later e.at es))
  added_over e es fs f h last before =
      let parts = Apart-split 0 fs (f ∷ []) (subst (Apart 0) last (Apart-earlier e.at es h).0) in
      let free : end_of_all 0 fs ≤ e.at = omega (arith, parts.1.0) in
      let same : map (until e.at) (fs ++ f ∷ []) ≡ fs ++ until e.at f ∷ [] =
        map-append (until e.at) fs (f ∷ [])
        ∙ ap (λ l. l ++ until e.at f ∷ []) (until_free e.at 0 fs parts.0 free).0 in
      let left : rests e (fs ++ f ∷ []) ≡ rest_of e f =
        rests-append e fs (f ∷ [])
        ∙ ap (λ l. l ++ (rest_of e f ++ [])) (rests_free e 0 fs parts.0 (omega arith))
        ∙ append_nil (rest_of e f) in
      ap (λ l. map (until e.at) l ++ e ∷ (rests e l ++ cut_behind (e.at + e.len) (later e.at es)))
        last
      ∙ ap₂ (λ l r. l ++ e ∷ (r ++ cut_behind (e.at + e.len) (later e.at es))) same left

  clip_len :
      (b : Buffer A) (s l : ℕ)
      → s + l < 2 ^ 63
      → (k : ℕ) × ((clip b (pos s) (pos l)).len ≡ pos k) × (k ≤ l)
  unfolding clip
  clip_len none s l small = (0, refl, omega arith)
  clip_len (some b) s l small =
      let n = size (some b) in
      elim (Bool-cases (starts_outside b (pos s))) [
        | inl out ↦ (0, rw out refl, omega arith)
        | inr inside ↦
            let test : leb_ℤ (pos n) (add64 (pos s) (pos l)) ≡ leb n (s + l) =
              ap (leb_ℤ (pos n)) (add64_pos s l small) ∙ ground arith in
            elim (Bool-cases (leb n (s + l))) [
              | inl over ↦ (
                n - s,
                rw (inside, test ∙ over) (sub64_le n s (ground arith) (ground arith)),
                ground arith,
              )
              | inr within ↦ (l, rw (inside, test ∙ within) refl, omega arith)
            ]
      ]

  -- What goes on behind the new piece is a clip, and not beyond the later ones.
  pub rest_clip :
      (e f : Piece A)
      → e.at + e.len < 2 ^ 62
      → f.at + f.len < 2 ^ 62
      → e.at + e.len < f.at + f.len
      → (clip f.buffer (pos (f.len + e.len)) (pos (f.at + f.len - (e.at + e.len)))
          ≡ clip_of (rest e f))
        × ((rest e f).at + (rest e f).len ≤ f.at + f.len)
  rest_clip e f small small' longer =
      let (k, is_len, le) =
        clip_len f.buffer (f.len + e.len) (f.at + f.len - (e.at + e.len)) (omega arith) in
      let c = clip f.buffer (pos (f.len + e.len)) (pos (f.at + f.len - (e.at + e.len))) in
      (
        ap (λ l. record c { len = l }) (is_len ∙ ap (λ l. pos (pos_part l)) (sym is_len)),
        omega (arith, le, ap pos_part is_len),
      )

  rest-Apart :
      (e f : Piece A) (ee : List (Piece A))
      → e.at + e.len < 2 ^ 62
      → f.at + f.len < 2 ^ 62
      → Apart (f.at + f.len) ee
      → Apart (e.at + e.len) (rest_of e f ++ cut_behind (e.at + e.len) ee)
  rest-Apart e f ee small small' h = elim (Bool-cases (ltb (e.at + e.len) (f.at + f.len))) [
    | inr covered ↦ rw covered (cut_behind-Apart (e.at + e.len) (f.at + f.len) ee h)
    | inl longer ↦
        let (is_clip, within) = rest_clip e f small small' (ground arith) in
        let whole = cut_behind_free (e.at + e.len) (f.at + f.len) ee h (ground arith) in
        rw longer (
          omega arith,
          omega (arith, within),
          subst (Apart ((rest e f).at + (rest e f).len)) (sym whole)
              (Apart-mono (f.at + f.len) ((rest e f).at + (rest e f).len) ee within h),
        )
  ]

  -- The parts of a track that has the new piece are apart.
  parts-Apart :
      (e : Piece A) (lo : ℕ) (eb ee : List (Piece A))
      → e.at + e.len < 2 ^ 62
      → lo ≤ e.at
      → Apart lo eb
      → end_of_all lo eb < 2 ^ 62
      → Apart (end_of_all lo eb) ee
      → All (λ f. f.at < e.at) eb
      → Apart lo (map (until e.at) eb ++ (e ∷ (rests e eb ++ cut_behind (e.at + e.len) ee)))
  parts-Apart e lo [] ee small le h end behind before =
      (le, omega arith, cut_behind-Apart (e.at + e.len) lo ee behind)
  parts-Apart e lo (f ∷ []) ee small le h end behind before = (
    h.0,
    omega (arith, h.1),
    (
      omega (arith, before.0),
      omega arith,
      subst (λ l. Apart (e.at + e.len) (l ++ cut_behind (e.at + e.len) ee))
          (sym (append_nil (rest_of e f))) (rest-Apart e f ee small end behind),
    ),
  )
  parts-Apart e lo (f ∷ g ∷ fs) ee small le h end behind before =
      let all =
        parts-Apart e (f.at + f.len) (g ∷ fs) ee small (omega (arith, h.2.0, before.1.0)) h.2 end
          behind before.1 in
      let free : ltb (e.at + e.len) (f.at + f.len) ≡ false = ground (arith, h.2.0, before.1.0) in
      let len : min f.len (e.at - f.at) ≡ f.len = omega (arith, h.2.0, before.1.0) in
      (h.0, omega (arith, h.1), rw (len, free) all)

  pub added-Apart :
      (e : Piece A) (es : List (Piece A))
      → Apart 0 es
      → e.at + e.len < 2 ^ 62
      → end_of_all 0 (earlier e.at es) < 2 ^ 62
      → Apart 0 (added e es)
  added-Apart e es h small end =
      let (before, behind) = Apart-earlier e.at es h in
      parts-Apart e 0 (earlier e.at es) (later e.at es) small (omega arith) before end behind
        (earlier_later e.at es).1

  pub last_before :
      (a : ℕ) (fs : List (Piece A)) (f : Piece A) → All (λ g. g.at < a) (fs ++ f ∷ []) → f.at < a
  last_before a [] f h = h.0
  last_before a (g ∷ fs) f h = last_before a fs f h.1

  pub All_until :
      (a s : ℕ) (fs : List (Piece A)) (f : Piece A)
      → a ≤ s
      → All (λ g. g.at < a) (fs ++ f ∷ [])
      → All (λ g. g.at < s) (fs ++ until a f ∷ [])
  All_until a s [] f le h = (omega (arith, h.0), tt)
  All_until a s (g ∷ fs) f le h = (omega (arith, h.0), All_until a s fs f le h.1)

  end_of_all_parts :
      (lo : ℕ) (fs gs : List (Piece A))
      → end_of_all lo (fs ++ gs) ≡ end_of_all (end_of_all lo fs) gs
  end_of_all_parts lo [] gs = refl
  end_of_all_parts lo (f ∷ fs) gs = end_of_all_parts (f.at + f.len) fs gs

  pub earlier_end :
      (a : ℕ) (es : List (Piece A)) → Apart 0 es → end_of_all 0 (earlier a es) ≤ end_of_all 0 es
  earlier_end a es h =
      let eb = earlier a es in
      let whole : end_of_all 0 es ≡ end_of_all (end_of_all 0 eb) (later a es) =
        ap (end_of_all 0) (earlier_later a es).0 ∙ end_of_all_parts 0 eb (later a es) in
      omega (arith, whole, end_of_all_le (end_of_all 0 eb) (later a es) (Apart-earlier a es h).1)

  pub All_snoc :
      (s : ℕ) (fs : List (Piece A)) (f : Piece A)
      → All (λ g. g.at < s) fs
      → f.at < s
      → All (λ g. g.at < s) (fs ++ f ∷ [])
  All_snoc s [] f h lt = (lt, tt)
  All_snoc s (g ∷ fs) f h lt = (h.0, All_snoc s fs f h.1 lt)
