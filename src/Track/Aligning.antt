-- ===== src/Track/Aligning.antt =====
-- track/track.go: `alignNextClip` removes or shortens the clips that the new one overlaps.
use phono.Base.{
  ℕ, zero, suc, ◌<◌, ◌≡◌, ◌≢◌, refl, sym, ap, ◌∙◌, List, [], ◌∷◌, Option, none, some, length,
  length-set, some-injective, ltb, ltb→lt, ◌-◌, ap₂, ◌+◌, ◌^◌, ◌≤◌, get_elem?, set,
  get_elem?-set_self, get_elem?-set_ne, lt_of_get_elem?, arith, true, false, Bool-cases, inl, inr,
}
use phono.Base.Int.{ℤ, pos, ltb_ℤ, add64, sub64}
use phono.Base.Outcome.{done}
use phono.Track.{
  Node, Track, node, set_next, set_prev, remove_next, shorten, align_with, align_next,
}
use phono.Track.Links.{has, Seg, Seg-set}
use phono.Track.Around.{update_lem, Around}
use phono.Track.Pieces.{
  Piece, clip_of, entry, entry_of, content, Same, set-Same, content-set, Holds, Holds-same, Apart,
  overlap_pos, overlap_none, from_on, cut_behind, shorten_entry, shorten_entry-from_on,
}

module _ {A : Type 0} (c : ℕ) (before : List ℕ) (mid : Option ℕ) where
  -- The clip c has another next one.
  Around-next :
      (t : Track A) (cd : Node A) (n : ℕ) (ns : List ℕ) (q last : Option ℕ)
      → Around c before mid t cd (n ∷ ns)
      → Seg (set t.heap c (set_next q cd)) (some c) q ns last none
      → Around c before mid
          (record t { heap = set t.heap c (set_next q cd); last = last })
          (set_next q cd)
          ns
  Around-next t cd n ns q last a rest = record {
    front = Seg-set t.heap c (set_next q cd) none t.first mid (some c) before a.alone a.front;
    here = get_elem?-set_self t.heap c (set_next q cd) (lt_of_get_elem? t.heap c a.here);
    prev = a.prev;
    back = rest;
    alone = a.alone;
    out = ground (arith, a.out);
    distinct_before = a.distinct_before;
    distinct = a.distinct.1;
    apart = λ x is. a.apart x (ground arith);
  }

  remove_next-none :
      (t : Track A) (cd : Node A) (n : ℕ)
      → Around c before mid t cd (n ∷ [])
      → (t' : Track A) × (remove_next c none t ≡ done t')
        × Around c before mid t' (set_next none cd) []
        × Same t.heap t'.heap
        × (length t'.heap ≡ length t.heap)
  unfolding remove_next
  remove_next-none t cd n a = (
    record t { heap = set t.heap c (set_next none cd); last = some c },
    rw (update_lem c (set_next none) t cd a.here) refl,
    Around-next t cd n [] none (some c) a (refl, refl),
    set-Same t.heap c cd (set_next none cd) a.here refl,
    length-set t.heap c (set_next none cd),
  )

  remove_next-some :
      (t : Track A) (cd md : Node A) (n m : ℕ) (ms : List ℕ)
      → Around c before mid t cd (n ∷ m ∷ ms)
      → get_elem? t.heap m ≡ some md
      → Seg t.heap (some m) md.next ms t.last none
      → (t' : Track A) × (remove_next c (some m) t ≡ done t')
        × Around c before mid t' (set_next (some m) cd) (m ∷ ms)
        × Same t.heap t'.heap
        × (length t'.heap ≡ length t.heap)
  unfolding remove_next
  remove_next-some t cd md n m ms a is rest =
      let cd' = set_next (some m) cd in
      let md' = set_prev (some c) md in
      let t1 = record t { heap = set t.heap c cd' } in
      let other : c ≢ m = λ same. absurd (ground (arith, a.out)) in
      let is1 : get_elem? t1.heap m ≡ some md = get_elem?-set_ne t.heap cd' other ∙ is in
      let out_m : has m before ≡ false = a.apart m (ground arith) in
      let out_ms : has c ms ≡ false = ground (arith, a.out) in
      (
        record t1 { heap = set t1.heap m md' },
        rw (update_lem c (set_next (some m)) t cd a.here)
            (update_lem m (set_prev (some c)) t1 md is1),
        record {
          front =
              Seg-set t1.heap m md' none t.first mid (some c) before out_m
                (Seg-set t.heap c cd' none t.first mid (some c) before a.alone a.front);
          here =
              get_elem?-set_ne t1.heap md' (λ same. other (sym same))
              ∙ get_elem?-set_self t.heap c cd' (lt_of_get_elem? t.heap c a.here);
          prev = a.prev;
          back = (
            refl,
            md',
            get_elem?-set_self t1.heap m md' (lt_of_get_elem? t1.heap m is1),
            refl,
            Seg-set t1.heap m md' (some m) md.next t.last none ms a.distinct.1.0
                (Seg-set t.heap c cd' (some m) md.next t.last none ms out_ms rest),
          );
          alone = a.alone;
          out = ground (arith, a.out);
          distinct_before = a.distinct_before;
          distinct = a.distinct.1;
          apart = λ x is. a.apart x (ground arith);
        },
        λ k. set-Same t1.heap m md md' is1 refl k ∙ set-Same t.heap c cd cd' a.here refl k,
        length-set t1.heap m md' ∙ length-set t.heap c cd',
      )

  remove_next_lem :
      (t : Track A) (cd nd : Node A) (n : ℕ) (ns : List ℕ)
      → Around c before mid t cd (n ∷ ns)
      → Seg t.heap (some n) nd.next ns t.last none
      → (t' : Track A) × (remove_next c nd.next t ≡ done t')
        × Around c before mid t' (set_next nd.next cd) ns
        × Same t.heap t'.heap
        × (length t'.heap ≡ length t.heap)
  remove_next_lem t cd nd n [] a (e, e2) =
      let (t', removed, around, same, size) = remove_next-none t cd n a in
      (t', ap (λ q. remove_next c q t) e ∙ removed, rw e around, same, size)
  remove_next_lem t cd nd n (m ∷ ms) a (e, md, is, back, rest) =
      let (t', removed, around, same, size) = remove_next-some t cd md n m ms a is rest in
      (t', ap (λ q. remove_next c q t) e ∙ removed, rw e around, same, size)

  shorten_lem :
      (t : Track A) (cd nd : Node A) (n : ℕ) (ns : List ℕ) (overlap : ℤ)
      → Around c before mid t cd (n ∷ ns)
      → get_elem? t.heap n ≡ some nd
      → nd.prev ≡ some c
      → cd.next ≡ some n
      → Seg t.heap (some n) nd.next ns t.last none
      → Around c before mid (record t { heap = set t.heap n (shorten overlap nd) }) cd (n ∷ ns)
  shorten_lem t cd nd n ns overlap a is back e rest =
      let nd' = shorten overlap nd in
      let out_n : has n before ≡ false = a.apart n (ground arith) in
      record {
        front = Seg-set t.heap n nd' none t.first mid (some c) before out_n a.front;
        here = get_elem?-set_ne t.heap nd' (λ same. absurd (ground (arith, a.out))) ∙ a.here;
        prev = a.prev;
        back = (
          e,
          nd',
          get_elem?-set_self t.heap n nd' (lt_of_get_elem? t.heap n is),
          back,
          Seg-set t.heap n nd' (some n) nd.next t.last none ns a.distinct.0 rest,
        );
        alone = a.alone;
        out = a.out;
        distinct_before = a.distinct_before;
        distinct = a.distinct;
        apart = a.apart;
      }

  -- The clips ns that are left behind c hold the pieces es, and no clip of the others changed.
  pub record IsAligned (t t' : Track A) (cd : Node A) (behind : List ℕ) (es : List (Piece A))
      : Type 0 where
    pub left : List ℕ
    pub cd' : Node A
    pub around : Around c before mid t' cd' left
    pub held : entry cd' ≡ entry cd
    pub holds : Holds t'.heap left es
    pub same : (k : ℕ) → has k behind ≡ false → content t'.heap k ≡ content t.heap k
    pub size : length t'.heap ≡ length t.heap
    pub fewer : length left ≤ length behind

  pub align_next_lem :
      (e : Piece A) (fuel lo : ℕ) (t : Track A) (cd : Node A) (behind : List ℕ)
      (es : List (Piece A))
      → length behind < fuel
      → Around c before mid t cd behind
      → entry cd ≡ (pos e.at, clip_of e)
      → e.at + e.len < 2 ^ 63
      → Holds t.heap behind es
      → Apart lo es
      → (t' : Track A) × (align_next fuel c t ≡ done t')
        × IsAligned t t' cd behind (cut_behind (e.at + e.len) es)
  unfolding align_next align_with node
  align_next_lem e zero lo t cd behind es enough a is_e small holds apart = absurd (omega arith)
  align_next_lem e (suc fuel) lo t cd [] [] enough a is_e small holds apart = (
    t,
    rw a.here (ap (λ q. align_with (align_next fuel c) c cd q t) a.back.0),
    record {
      left = [];
      cd' = cd;
      around = a;
      held = refl;
      holds = tt;
      same = λ k out. refl;
      size = refl;
      fewer = omega arith;
    },
  )
  align_next_lem e (suc fuel) lo t cd [] (f ∷ fs) enough a is_e small holds apart = absurd holds
  align_next_lem e (suc fuel) lo t cd (n ∷ ns) [] enough a is_e small holds apart = absurd holds
  align_next_lem e (suc fuel) lo t cd (n ∷ ns) (f ∷ fs) enough a is_e small holds apart =
      let (next, nd, is, back, rest) = a.back in
      let is_f : entry nd ≡ (pos f.at, clip_of f) =
        some-injective (sym (ap entry_of is) ∙ holds.0) in
      let overlap = add64 (sub64 cd.at nd.at) cd.clip.len in
      let is_overlap : overlap ≡ add64 (sub64 (pos e.at) (pos f.at)) (pos e.len) =
        ap₂ add64 (ap₂ sub64 (ap (λ p. p.0) is_e) (ap (λ p. p.0) is_f)) (ap (λ p. p.1.len) is_e) in
      let starts : align_next (suc fuel) c t ≡ align_with (align_next fuel c) c cd (some n) t =
        rw a.here (ap (λ q. align_with (align_next fuel c) c cd q t) next) in
      elim (Bool-cases (ltb f.at (e.at + e.len))) [
        | inr free ↦
            let none_over : ltb_ℤ (pos 0) overlap ≡ false =
              ap (ltb_ℤ (pos 0)) is_overlap
              ∙ overlap_none e.at e.len f.at small (omega (arith, apart.1)) (ground arith) in
            (
              t,
              starts ∙ rw (is, none_over) refl,
              record {
                left = n ∷ ns;
                cd' = cd;
                around = a;
                held = refl;
                holds = rw free holds;
                same = λ k out. refl;
                size = refl;
                fewer = omega arith;
              },
            )
        | inl over ↦
            let is_pos : overlap ≡ pos (e.at + e.len - f.at) =
              is_overlap ∙ overlap_pos e.at e.len f.at small (ltb→lt f.at (e.at + e.len) over) in
            let some_over : ltb_ℤ (pos 0) overlap ≡ true =
              ap (ltb_ℤ (pos 0)) is_pos ∙ ground arith in
            let is_test : ltb_ℤ overlap nd.clip.len ≡ ltb (e.at + e.len - f.at) f.len =
              ap₂ ltb_ℤ is_pos (ap (λ p. p.1.len) is_f) ∙ ground arith in
            elim (Bool-cases (ltb (e.at + e.len - f.at) f.len)) [
              | inl longer ↦
                  let y = shorten overlap nd in
                  let cut : entry y ≡ (pos (e.at + e.len), clip_of (from_on (e.at + e.len) f)) =
                    ap (shorten_entry overlap) is_f
                    ∙ ap (λ o. shorten_entry o (pos f.at, clip_of f)) is_pos
                    ∙ shorten_entry-from_on (e.at + e.len) f (ground arith) (ground arith)
                        apart.1 in
                  (
                    record t { heap = set t.heap n y },
                    starts
                        ∙ rw (is, some_over, is_test ∙ longer)
                            (update_lem n (shorten overlap) t nd is),
                    record {
                      left = n ∷ ns;
                      cd' = cd;
                      around = shorten_lem t cd nd n ns overlap a is back next rest;
                      held = refl;
                      holds =
                          rw (over, longer)
                            (
                              content-set t.heap n n nd y is ∙ ground arith ∙ ap some cut,
                              Holds-same t.heap (set t.heap n y) ns fs
                                  (λ k inside.
                                    content-set t.heap n k nd y is ∙ ground (arith, a.distinct.0))
                                  holds.1,
                            );
                      same = λ k out. content-set t.heap n k nd y is ∙ ground arith;
                      size = length-set t.heap n y;
                      fewer = omega arith;
                    },
                  )
              | inr covered ↦
                  let (t1, removes, a1, same1, size1) = remove_next_lem t cd nd n ns a rest in
                  let (t', aligned, r) =
                    align_next_lem e fuel (f.at + f.len) t1 (set_next nd.next cd) ns fs
                      (omega arith) a1 is_e small
                      (Holds-same t.heap t1.heap ns fs (λ k inside. same1 k) holds.1) apart.2 in
                  (
                    t',
                    starts ∙ rw (is, some_over, is_test ∙ covered, removes) aligned,
                    record {
                      left = r.left;
                      cd' = r.cd';
                      around = r.around;
                      held = r.held;
                      holds = rw (over, covered) r.holds;
                      same = λ k out. r.same k (ground arith) ∙ same1 k;
                      size = r.size ∙ size1;
                      fewer = omega (arith, r.fewer);
                    },
                  )
            ]
      ]
