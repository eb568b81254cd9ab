-- ===== src/Track/Cutting.antt =====
-- track/track.go: `alignPrevClip`, when the clip before a new one goes beyond its start.
use mathlib.Core.Path.{subst}
use phono.Base.{
  ℕ, ◌+◌, ◌-◌, ◌^◌, ◌<◌, ◌≡◌, refl, ap, ap₂, ◌∙◌, min, List, [], ◌∷◌, ◌++◌, Option, some, set,
  length-set, ltb, if◌then◌else◌, ◌==◌, arith, true, Bool-cases, inl, inr,
}
use phono.Base.Int.{sub64_le, ℤ, pos, ltb_ℤ, add64, sub64, add64_pos}
use phono.Base.Outcome.{Outcome, done}
use phono.Buffer.{Clip, clip}
use phono.Track.{Node, Track, node, align_behind, align_prev}
use phono.Track.Links.{has, Distinct, Seg}
use phono.Track.Pieces.{Piece, clip_of, entry, content-set, Holds, Holds-same, overlap_pos}
use phono.Track.Around.{update_lem}
use phono.Track.Timeline.{until, end_of_all}
use phono.Track.Placing.{IsPlaced}
use phono.Track.Ending.{IsLast, last_lem, Around-relabel, align_prev_mid}

module _ {A : Type 0} where
  -- The last clip of a part of a track that is not empty.
  pub ends_with :
      (heap : List (Node A)) (prev p end stop : Option ℕ) (ns : List ℕ) (es : List (Piece A))
      (a : ℕ)
      → Distinct ns
      → Seg heap prev p ns end stop
      → Holds heap ns es
      → a < end_of_all 0 es
      → IsLast heap end ns es
  ends_with heap prev p end stop [] [] a d s h beyond = absurd (omega arith)
  ends_with heap prev p end stop [] (e ∷ es) a d s h beyond = absurd h
  ends_with heap prev p end stop (n ∷ ns) es a d s h beyond =
      last_lem heap prev p end stop n ns es d s h

  pub begins_with :
      (heap : List (Node A)) (prev p end stop : Option ℕ) (x : ℕ) (ns : List ℕ)
      → has x ns ≡ true
      → Seg heap prev p ns end stop
      → (n : ℕ) × (p ≡ some n)
  begins_with heap prev p end stop x [] inside s = cc
  begins_with heap prev p end stop x (n ∷ ns) inside s = (n, s.0)

  -- The clip before the new one goes beyond its start.
  pub align_prev_over :
      (again : ℤ → Clip A → Track A → Outcome (Track A)) (e : Piece A) (c : ℕ) (t : Track A)
      (eb ee : List (Piece A))
      → (pl : IsPlaced e c t eb ee) → (l : IsLast t.heap pl.mid pl.before eb) → l.f.at < e.at
      → e.at < l.f.at + l.f.len
      → l.f.at + l.f.len + e.len < 2 ^ 63
      → (t' : Track A) × (align_prev again c t ≡ (
          if ltb (e.at + e.len) (l.f.at + l.f.len)
          then again
              (pos (e.at + e.len))
              (clip l.f.buffer (pos (l.f.len + e.len)) (pos (l.f.at + l.f.len - (e.at + e.len))))
              t'
          else done t'))
        × IsPlaced e c t' (l.fs ++ until e.at l.f ∷ []) ee
        × (t'.first ≡ t.first)
  unfolding align_behind node
  align_prev_over again e c t eb ee pl l before over small =
      let a = pl.around in
      let o = l.f.at + l.f.len - e.at in
      let overlap = add64 (sub64 l.nd.at pl.cd.at) l.nd.clip.len in
      let at_e : pl.cd.at ≡ pos e.at = ap (λ p. p.0) pl.held in
      let len_e : pl.cd.clip.len ≡ pos e.len = ap (λ p. p.1.len) pl.held in
      let at_f : l.nd.at ≡ pos l.f.at = ap (λ p. p.0) l.held in
      let len_f : l.nd.clip.len ≡ pos l.f.len = ap (λ p. p.1.len) l.held in
      let is_overlap : overlap ≡ pos o =
        ap₂ add64 (ap₂ sub64 at_f at_e) len_f
        ∙ overlap_pos l.f.at l.f.len e.at (omega arith) over in
      let some_over : ltb_ℤ (pos 0) overlap ≡ true = ap (ltb_ℤ (pos 0)) is_overlap ∙ ground arith in
      let y : Node A = record l.nd {
        clip = record l.nd.clip { len = sub64 l.nd.clip.len overlap };
      } in
      let t' : Track A = record t { heap = set t.heap l.x y } in
      let is_len : sub64 l.nd.clip.len overlap ≡ pos (min l.f.len (e.at - l.f.at)) =
        ap₂ sub64 len_f is_overlap
        ∙ sub64_le l.f.len o (omega arith) (omega arith)
        ∙ ap pos (omega arith) in
      let cut : entry y ≡ (pos l.f.at, clip_of (until e.at l.f)) =
        ap₂ (λ (n : ℤ × Clip A) (k : ℤ). (n.0, record n.1 { len = k })) l.held is_len in
      let starts =
        align_prev_mid again e c t pl.cd pl.mid a.here a.prev pl.held (some l.x) l.is_end in
      let changed =
        update_lem l.x
          (λ m. record m { clip = record l.nd.clip { len = sub64 l.nd.clip.len overlap } }) t l.nd
          l.found in
      let is_at : add64 pl.cd.at pl.cd.clip.len ≡ pos (e.at + e.len) =
        ap₂ add64 at_e len_e ∙ add64_pos e.at e.len (omega arith) in
      let is_start : sub64 (add64 (add64 overlap pl.cd.clip.len) pl.cd.at) l.nd.at
          ≡ pos (l.f.len + e.len) =
        ap₂ sub64
          (ap₂ add64 (ap₂ add64 is_overlap len_e ∙ add64_pos o e.len (omega arith)) at_e
            ∙ add64_pos (o + e.len) e.at (omega arith))
          at_f
        ∙ sub64_le (o + e.len + e.at) l.f.at (omega arith) (omega arith)
        ∙ ap pos (omega arith) in
      let is_test : ltb_ℤ pl.cd.clip.len overlap ≡ ltb (e.at + e.len) (l.f.at + l.f.len) =
        ap₂ ltb_ℤ len_e is_overlap ∙ ground arith in
      (
        t',
        elim (Bool-cases (ltb (e.at + e.len) (l.f.at + l.f.len))) [
          | inr covered ↦ starts ∙ rw (covered, l.found, some_over, is_test ∙ covered) changed
          | inl longer ↦
              let is_len' : sub64 overlap pl.cd.clip.len ≡ pos (l.f.at + l.f.len - (e.at + e.len)) =
                ap₂ sub64 is_overlap len_e
                ∙ sub64_le o e.len (ground arith) (omega arith)
                ∙ ap pos (ground arith) in
              starts
              ∙ rw (longer, l.found, some_over, is_test ∙ longer, changed)
                  (ap₂ (λ at f. again at f t') is_at
                    (ap₂ (λ b (p : ℤ × ℤ). clip b p.0 p.1) (ap (λ p. p.1.buffer) l.held)
                      (ap₂ (λ s k. (s, k)) is_start is_len')))
        ],
        record {
          before = pl.before;
          left = pl.left;
          mid = pl.mid;
          cd = pl.cd;
          around =
              Around-relabel c pl.before pl.mid t pl.cd l.nd y pl.left l.x a l.inside l.found refl
                refl;
          held = pl.held;
          holds_before = l.other y (until e.at l.f) cut;
          holds_left =
              Holds-same t.heap t'.heap pl.left ee
                (λ k behind.
                  content-set t.heap l.x k l.nd y l.found ∙ elim (Bool-cases (l.x == k)) [
                    | inl at ↦
                        let one : l.x ≡ k = ground arith in
                        absurd (
                          ground (
                            arith,
                            a.apart k behind,
                            subst (λ z. has z pl.before ≡ true) one l.inside,
                          ))
                    | inr off ↦ rw off refl
                  ])
                pl.holds_left;
          enough = omega (arith, length-set t.heap l.x y, pl.enough);
        },
        refl,
      )
