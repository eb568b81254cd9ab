-- ===== src/Track/Ending.antt =====
-- track/track.go: the clip before a new one, in `alignPrevClip`.
use phono.Base.{
  ℕ, ◌+◌, ◌^◌, ◌≤◌, ◌<◌, ◌≡◌, refl, sym, ap, ap₂, ◌∙◌, List, [], ◌∷◌, ◌++◌, Option, none, some,
  get_elem?, set, get_elem?-set_ne, some-injective, ◌==◌, arith, true, false, Bool-cases, inl, inr,
}
use phono.Base.Int.{ℤ, pos, ltb_ℤ, add64, sub64}
use phono.Base.Outcome.{Outcome, done}
use phono.Buffer.{Clip}
use phono.Track.{Node, Track, node, align_behind, align_prev}
use phono.Track.Links.{has, Distinct, Seg, Seg-set}
use phono.Track.Pieces.{Piece, clip_of, entry, entry_of, content-set, Holds, Apart, overlap_none}
use phono.Track.Around.{Seg-relabel, Around}
use phono.Track.Timeline.{end_of_all, end_of_all-append}

module _ {A : Type 0} where
  -- The last clip x of a segment and its piece f.
  pub record IsLast (heap : List (Node A)) (end : Option ℕ) (ns : List ℕ) (es : List (Piece A))
      : Type 0 where
    pub x : ℕ
    pub nd : Node A
    pub fs : List (Piece A)
    pub f : Piece A
    pub is_end : end ≡ some x
    pub found : get_elem? heap x ≡ some nd
    pub held : entry nd ≡ (pos f.at, clip_of f)
    pub parts : es ≡ fs ++ f ∷ []
    pub inside : has x ns ≡ true
    pub other :
        (y : Node A) (g : Piece A)
        → entry y ≡ (pos g.at, clip_of g)
        → Holds (set heap x y) ns (fs ++ g ∷ [])

  pub last_lem :
      (heap : List (Node A)) (prev p end stop : Option ℕ) (n : ℕ) (ns : List ℕ)
      (es : List (Piece A))
      → Distinct (n ∷ ns)
      → Seg heap prev p (n ∷ ns) end stop
      → Holds heap (n ∷ ns) es
      → IsLast heap end (n ∷ ns) es
  last_lem heap prev p end stop n ns [] d s h = absurd h
  last_lem heap prev p end stop n [] (f ∷ []) d (e, nd, is, back, (e1, e2)) (here, h) = record {
    x = n;
    nd = nd;
    fs = [];
    f = f;
    is_end = sym e2;
    found = is;
    held = some-injective (sym (ap entry_of is) ∙ here);
    parts = refl;
    inside = ground arith;
    other = λ y g same. (content-set heap n n nd y is ∙ ground arith ∙ ap some same, tt);
  }
  last_lem heap prev p end stop n [] (f ∷ g ∷ fs) d s (here, h) = absurd h
  last_lem heap prev p end stop n (m ∷ ms) (f ∷ fs) d (e, nd, is, back, rest) (here, h) =
      let l = last_lem heap (some n) nd.next end stop m ms fs d.1 rest h in
      record {
        x = l.x;
        nd = l.nd;
        fs = f ∷ l.fs;
        f = l.f;
        is_end = l.is_end;
        found = l.found;
        held = l.held;
        parts = ap (◌∷◌ f) l.parts;
        inside =
            let later = l.inside in
            elim (Bool-cases (n == l.x)) [ inl same ↦ rw same refl | inr other ↦ rw other later ];
        other = λ y g same. (
          content-set heap l.x n l.nd y l.found ∙ elim (Bool-cases (l.x == n)) [
            | inl at ↦ let one : n ≡ l.x = ground arith in absurd (ground (arith, d.0, l.inside))
            | inr off ↦ rw off here
          ],
          l.other y g same,
        );
      }

  -- The clip before the new one may change, but for its links.
  pub Around-relabel :
      (c : ℕ) (before : List ℕ) (mid : Option ℕ) (t : Track A) (cd nd y : Node A) (left : List ℕ)
      (x : ℕ)
      → Around c before mid t cd left
      → has x before ≡ true
      → get_elem? t.heap x ≡ some nd
      → y.next ≡ nd.next
      → y.prev ≡ nd.prev
      → Around c before mid (record t { heap = set t.heap x y }) cd left
  Around-relabel c before mid t cd nd y left x a inside is next prev =
      let away : has x left ≡ false = elim (Bool-cases (has x left)) [
        | inl behind ↦ absurd (ground (arith, a.apart x behind))
        | inr out ↦ out
      ] in
      record {
        front = Seg-relabel t.heap x nd y none t.first mid (some c) before is next prev a.front;
        here = get_elem?-set_ne t.heap y (λ same. absurd (ground (arith, a.alone))) ∙ a.here;
        prev = a.prev;
        back = Seg-set t.heap x y (some c) cd.next t.last none left away a.back;
        alone = a.alone;
        out = a.out;
        distinct_before = a.distinct_before;
        distinct = a.distinct;
        apart = a.apart;
      }

  module _ (again : ℤ → Clip A → Track A → Outcome (Track A)) (e : Piece A) (c : ℕ) (t : Track A)
      (cd : Node A) (mid : Option ℕ) (here : get_elem? t.heap c ≡ some cd) (back : cd.prev ≡ mid)
      (held : entry cd ≡ (pos e.at, clip_of e)) where
    pub align_prev_mid : (q : Option ℕ) → mid ≡ q → align_prev again c t ≡ align_behind again cd q t
    unfolding align_prev node
    align_prev_mid q is = rw here (ap (λ q. align_behind again cd q t) (back ∙ is))

    -- No clip before it goes beyond its start.
    pub align_prev_free :
        (before : List ℕ) (eb : List (Piece A))
        → Seg t.heap none t.first before mid (some c)
        → Distinct before
        → Holds t.heap before eb
        → Apart 0 eb
        → end_of_all 0 eb ≤ e.at
        → e.at < 2 ^ 63
        → align_prev again c t ≡ done t
    unfolding align_behind node
    align_prev_free [] eb (first, end) d h apart free small = align_prev_mid none (sym end)
    align_prev_free (n ∷ ns) eb s d h apart free small =
        let l = last_lem t.heap none t.first mid (some c) n ns eb d s h in
        let end : l.f.at + l.f.len ≤ e.at =
          omega (arith, ap (end_of_all 0) l.parts, end_of_all-append 0 l.fs l.f, free) in
        let overlap = add64 (sub64 l.nd.at cd.at) l.nd.clip.len in
        let is_overlap : overlap ≡ add64 (sub64 (pos l.f.at) (pos e.at)) (pos l.f.len) =
          ap₂ add64 (ap₂ sub64 (ap (λ p. p.0) l.held) (ap (λ p. p.0) held))
            (ap (λ p. p.1.len) l.held) in
        let none_over : ltb_ℤ (pos 0) overlap ≡ false =
          ap (ltb_ℤ (pos 0)) is_overlap
          ∙ overlap_none l.f.at l.f.len e.at (omega arith) small end in
        align_prev_mid (some l.x) l.is_end ∙ rw (l.found, none_over) refl
