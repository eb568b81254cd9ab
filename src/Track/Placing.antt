-- ===== src/Track/Placing.antt =====
-- track/track.go: `AddClip` puts a new clip into a track and resolves the overlaps behind it.
use mathlib.Core.Path.{subst}
use phono.Base.{
  ℕ, suc, ◌+◌, ◌^◌, ◌≤◌, ◌<◌, ◌≡◌, refl, sym, ap, ◌∙◌, List, [], ◌∷◌, ◌++◌, Option, none, some, All,
  length, length-append, get_elem?-append_left, get_elem?-append_right, lt_of_get_elem?,
  some-injective, ltb, ◌==◌, arith, true, false, Bool-cases, inl, inr,
}
use phono.Base.Int.{pos, leb_ℤ}
use phono.Base.Outcome.{done}
use phono.Track.{Node, Track, insert_clip, align_next, with_clip}
use phono.Track.Links.{has, has-append, Distinct, Seg, StartsBefore, NoneBefore}
use phono.Track.Pieces.{
  Piece, clip_of, entry, entry_of, Holds, Holds-same, Holds-append, Holds-split, Apart, cut_behind,
}
use phono.Track.Around.{Around, Around-Seg}
use phono.Track.Inserting.{insert_clip_lem}
use phono.Track.Aligning.{align_next_lem}
use phono.Track.Timeline.{earlier, later, earlier-append, end_of_all, Apart-split}

Distinct-join :
    (ns ms : List ℕ)
    → Distinct ns
    → Distinct ms
    → ((x : ℕ) → has x ms ≡ true → has x ns ≡ false)
    → Distinct (ns ++ ms)
Distinct-join [] ms d d' apart = d'
Distinct-join (n ∷ ns) ms (out, d) d' apart = (
  has-append n ns ms ∙ elim (Bool-cases (has n ms)) [
    | inl inside ↦ let front = apart n inside in absurd (ground arith)
    | inr away ↦ rw (out, away) refl
  ],
  Distinct-join ns ms d d' (λ x is. let front = apart x is in ground arith),
)

module _ {A : Type 0} where
  -- The clips of a track are linked forwards and backwards, none of them twice, and hold these pieces.
  pub record IsTrack (t : Track A) (es : List (Piece A)) : Type 0 where
    pub clips : List ℕ
    pub linked : Seg t.heap none t.first clips t.last none
    pub distinct : Distinct clips
    pub enough : length clips ≤ length t.heap
    pub holds : Holds t.heap clips es

  Seg_lt :
      (heap : List (Node A)) (prev p end stop : Option ℕ) (x : ℕ) (ns : List ℕ)
      → Seg heap prev p ns end stop
      → has x ns ≡ true
      → x < length heap
  Seg_lt heap prev p end stop x [] s is = cc
  Seg_lt heap prev p end stop x (n ∷ ns) (e, nd, found, back, rest) is =
      elim (Bool-cases (n == x)) [
        | inl same ↦ let at : n ≡ x = ground arith in rw (← at) (lt_of_get_elem? heap n found)
        | inr other ↦ Seg_lt heap (some n) nd.next end stop x ns rest (ground arith)
      ]

  Seg_grow :
      (heap more : List (Node A)) (prev p end stop : Option ℕ) (ns : List ℕ)
      → Seg heap prev p ns end stop
      → Seg (heap ++ more) prev p ns end stop
  Seg_grow heap more prev p end stop [] s = s
  Seg_grow heap more prev p end stop (n ∷ ns) (e, nd, is, back, rest) = (
    e,
    nd,
    get_elem?-append_left heap more n (lt_of_get_elem? heap n is) ∙ is,
    back,
    Seg_grow heap more (some n) nd.next end stop ns rest,
  )

  All_earlier :
      (heap : List (Node A)) (a : ℕ) (ns : List ℕ) (es : List (Piece A))
      → All (StartsBefore heap (pos a)) ns
      → Holds heap ns es
      → All (λ f. f.at < a) es
  All_earlier heap a [] [] s h = tt
  All_earlier heap a [] (e ∷ es) s h = absurd h
  All_earlier heap a (n ∷ ns) [] s h = absurd h
  All_earlier heap a (n ∷ ns) (f ∷ fs) ((nd, is, starts), s) (here, h) =
      let at : nd.at ≡ pos f.at = ap (λ p. p.0) (some-injective (sym (ap entry_of is) ∙ here)) in
      let test : leb_ℤ (pos a) (pos f.at) ≡ false = ap (leb_ℤ (pos a)) (sym at) ∙ starts in
      (ground arith, All_earlier heap a ns fs s h)

  None_earlier :
      (heap : List (Node A)) (a : ℕ) (ns : List ℕ) (es : List (Piece A))
      → NoneBefore heap (pos a) ns
      → Holds heap ns es
      → (earlier a es ≡ []) × (later a es ≡ es)
  None_earlier heap a [] [] s h = (refl, refl)
  None_earlier heap a [] (e ∷ es) s h = absurd h
  None_earlier heap a (n ∷ ns) [] s h = absurd h
  None_earlier heap a (n ∷ ns) (f ∷ fs) (nd, is, starts) (here, h) =
      let at : nd.at ≡ pos f.at = ap (λ p. p.0) (some-injective (sym (ap entry_of is) ∙ here)) in
      let test : leb_ℤ (pos a) (pos f.at) ≡ true = ap (leb_ℤ (pos a)) (sym at) ∙ starts in
      let out : ltb f.at a ≡ false = ground arith in (rw out refl, rw out refl)

  -- The new clip c and the parts of the track before and behind it.
  pub record IsPlaced (e : Piece A) (c : ℕ) (t : Track A) (eb ee : List (Piece A)) : Type 0 where
    pub before : List ℕ
    pub left : List ℕ
    pub mid : Option ℕ
    pub cd : Node A
    pub around : Around c before mid t cd left
    pub held : entry cd ≡ (pos e.at, clip_of e)
    pub holds_before : Holds t.heap before eb
    pub holds_left : Holds t.heap left ee
    pub enough : length before + suc (length left) ≤ length t.heap

  pub IsPlaced-IsTrack :
      (e : Piece A) (c : ℕ) (t : Track A) (eb ee : List (Piece A))
      → IsPlaced e c t eb ee
      → IsTrack t (eb ++ e ∷ ee)
  IsPlaced-IsTrack e c t eb ee p =
      let a = p.around in
      record {
        clips = p.before ++ c ∷ p.left;
        linked = Around-Seg c p.before p.mid t p.cd p.left a;
        distinct =
            Distinct-join p.before (c ∷ p.left) a.distinct_before (a.out, a.distinct)
              (λ x is. elim (Bool-cases (c == x)) [
                | inl same ↦ let at : c ≡ x = ground arith in rw (← at) a.alone
                | inr other ↦ a.apart x (ground arith)
              ]);
        enough = omega (arith, length-append p.before (c ∷ p.left), p.enough);
        holds =
            Holds-append t.heap p.before (c ∷ p.left) eb (e ∷ ee) p.holds_before
              (ap entry_of a.here ∙ ap some p.held, p.holds_left);
      }

  pub place_lem :
      (e : Piece A) (t : Track A) (es : List (Piece A))
      → IsTrack t es
      → e.at + e.len < 2 ^ 63
      → Apart 0 es
      → (t1 : Track A) × (t2 : Track A) × (insert_clip
            (length t.heap)
            (pos e.at)
            (with_clip (pos e.at) (clip_of e) t)
          ≡ done t1)
        × (align_next (suc (length t1.heap)) (length t.heap) t1 ≡ done t2)
        × IsPlaced e
            (length t.heap)
            t2
            (earlier e.at es)
            (cut_behind (e.at + e.len) (later e.at es))
  place_lem e t es is small apart =
      let c = length t.heap in
      let nd : Node A = record { at = pos e.at; clip = clip_of e; next = none; prev = none } in
      let t0 = with_clip (pos e.at) (clip_of e) t in
      let grown : length t0.heap ≡ suc (length t.heap) =
        length-append t.heap (nd ∷ []) ∙ omega arith in
      let out : has c is.clips ≡ false = elim (Bool-cases (has c is.clips)) [
        | inl inside ↦
            absurd
              (omega (arith, Seg_lt t.heap none t.first t.last none c is.clips is.linked inside))
        | inr away ↦ away
      ] in
      let (t1, inserted, i) =
        insert_clip_lem c nd (pos e.at) is.clips t0
          (Seg_grow t.heap (nd ∷ []) none t.first t.last none is.clips is.linked) is.distinct
          (omega (arith, is.enough, grown)) out
          (get_elem?-append_right t.heap (nd ∷ []) c 0 (omega arith)) in
      let held0 : Holds t0.heap is.clips es =
        Holds-same t.heap t0.heap is.clips es
          (λ k inside. ap entry_of (
            get_elem?-append_left t.heap (nd ∷ []) k
              (Seg_lt t.heap none t.first t.last none k is.clips is.linked inside)))
          is.holds in
      let (eb, ee, parts, held_b, held_e) =
        Holds-split t0.heap i.before i.behind es
          (subst (λ ns. Holds t0.heap ns es) i.parts held0) in
      let (is_later, is_all) = None_earlier t0.heap e.at i.behind ee i.later held_e in
      let (first, second) =
        earlier-append e.at eb ee (All_earlier t0.heap e.at i.before eb i.earlier held_b) is_later
          is_all in
      let is_eb : eb ≡ earlier e.at es = sym first ∙ ap (earlier e.at) (sym parts) in
      let is_ee : ee ≡ later e.at es = sym second ∙ ap (later e.at) (sym parts) in
      let apart_e = Apart-split 0 eb ee (subst (Apart 0) parts apart) in
      let sizes : length is.clips ≡ length i.before + length i.behind =
        ap length i.parts ∙ length-append i.before i.behind in
      let (t2, aligned, r) =
        align_next_lem c i.before i.mid e (suc (length t1.heap)) (end_of_all 0 eb) t1 i.cd' i.behind
          ee (omega (arith, sizes, is.enough, i.size, grown)) i.around i.held small
          (Holds-same t0.heap t1.heap i.behind ee (λ k inside. i.same k) held_e) apart_e.1 in
      (
        t1,
        t2,
        inserted,
        aligned,
        record {
          before = i.before;
          left = r.left;
          mid = i.mid;
          cd = r.cd';
          around = r.around;
          held = r.held ∙ i.held;
          holds_before = subst (Holds t2.heap i.before) is_eb (
              Holds-same t0.heap t2.heap i.before eb
                (λ k inside. elim (Bool-cases (has k i.behind)) [
                  | inl behind ↦ let away = i.around.apart k behind in absurd (ground arith)
                  | inr away ↦ r.same k away ∙ i.same k
                ])
                held_b);
          holds_left =
              subst (λ l. Holds t2.heap r.left (cut_behind (e.at + e.len) l)) is_ee r.holds;
          enough = omega (arith, sizes, is.enough, i.size, grown, r.size, r.fewer);
        },
      )
