-- ===== src/Track/Inserting.antt =====
-- track/track.go: `AddClip` puts the new clip into the list, before overlaps are resolved.
use phono.Base.{
  ℕ, suc, ◌≤◌, ◌≡◌, ◌≢◌, refl, sym, ap, ◌∙◌, List, [], ◌∷◌, ◌++◌, Option, none, some, length,
  get_elem?, set, length-set, get_elem?-set_self, get_elem?-set_ne, lt_of_get_elem?, All, arith,
  false, Bool-cases, inl, inr,
}
use phono.Base.Int.{ℤ}
use phono.Base.Outcome.{done}
use phono.Track.{Node, Track, node, set_next, set_prev, link_next, link_prev, insert_clip}
use phono.Track.Links.{
  has, Distinct, has_front, Distinct-append, Seg, Seg-set, Seg-has, Seg-set_next, StartsBefore,
  NoneBefore, clip_after_lem,
}
use phono.Track.Around.{update_lem, Around}
use phono.Track.Pieces.{entry, Same, set-Same}

module _ {A : Type 0} where
  -- A new clip c, whose fields are cd and which is not in the list.
  module _ (c : ℕ) (cd : Node A) where
    -- The clip behind the new one points back to it.
    link_next_lem :
        (before behind : List ℕ) (mid q : Option ℕ) (t : Track A)
        → Seg t.heap none t.first before mid q
        → Seg t.heap mid q behind t.last none
        → Distinct (before ++ behind)
        → has c (before ++ behind) ≡ false
        → get_elem? t.heap c ≡ some cd
        → (t' : Track A) × (link_next c q t ≡ done (mid, t'))
          × Seg t'.heap none t'.first before mid q
          × Seg t'.heap (some c) q behind t'.last none
          × (get_elem? t'.heap c ≡ some cd)
          × Same t.heap t'.heap
          × (length t'.heap ≡ length t.heap)
    unfolding link_next node
    link_next_lem before [] mid q t front (e, e2) distinct out is_c = (
      record t { last = some c },
      ap (λ q. link_next c q t) e ∙ ap (λ m. done (m, record t { last = some c })) (sym e2),
      front,
      (e, refl),
      is_c,
      λ k. refl,
      refl,
    )
    link_next_lem before (n ∷ ns) mid q t front (e, nd, is, back, rest) distinct out is_c =
        let (_, second, apart) = Distinct-append before (n ∷ ns) distinct in
        let outside = has_front c before (n ∷ ns) out in
        let nd' = set_prev (some c) nd in
        let alone : has n before ≡ false = elim (Bool-cases (has n before)) [
          | inl inside ↦ absurd (ground (arith, apart n inside))
          | inr away ↦ away
        ] in
        (
          record t { heap = set t.heap n nd' },
          ap (λ q. link_next c q t) e
              ∙ rw (is, update_lem n (set_prev (some c)) t nd is)
                  (ap (λ m. done (m, record t { heap = set t.heap n nd' })) back),
          Seg-set t.heap n nd' none t.first mid q before alone front,
          (
            e,
            nd',
            get_elem?-set_self t.heap n nd' (lt_of_get_elem? t.heap n is),
            refl,
            Seg-set t.heap n nd' (some n) nd.next t.last none ns second.0 rest,
          ),
          get_elem?-set_ne t.heap nd' (λ same. absurd (ground (arith, outside.1))) ∙ is_c,
          set-Same t.heap n nd nd' is refl,
          length-set t.heap n nd',
        )

    Seg-none :
        (heap : List (Node A)) (prev p stop : Option ℕ) (n : ℕ) (ns : List ℕ)
        → Seg heap prev p (n ∷ ns) none stop
        → none ≡ some n
    Seg-none heap prev p stop n [] (e, nd, is, back, (e', e2)) = sym e2
    Seg-none heap prev p stop n (m ∷ ns) (e, nd, is, back, rest) =
        let lost = Seg-none heap (some n) nd.next stop m ns rest in cc

    -- The clip before the new one points to it.
    link_prev_lem :
        (before behind : List ℕ) (mid q : Option ℕ) (t : Track A)
        → Seg t.heap none t.first before mid q
        → Seg t.heap (some c) q behind t.last none
        → Distinct (before ++ behind)
        → has c (before ++ behind) ≡ false
        → get_elem? t.heap c ≡ some cd
        → (t' : Track A) × (link_prev c mid t ≡ done t')
          × Seg t'.heap none t'.first before mid (some c)
          × Seg t'.heap (some c) q behind t'.last none
          × (get_elem? t'.heap c ≡ some cd)
          × Same t.heap t'.heap
          × (length t'.heap ≡ length t.heap)
    unfolding link_prev
    link_prev_lem [] behind mid q t (e, e2) back distinct out is_c = (
      record t { first = some c },
      ap (λ m. link_prev c m t) (sym e2),
      (refl, e2),
      back,
      is_c,
      λ k. refl,
      refl,
    )
    link_prev_lem (n ∷ ns) behind none q t front back distinct out is_c =
        let lost = Seg-none t.heap none t.first q n ns front in cc
    link_prev_lem (n ∷ ns) behind (some x) q t front back distinct out is_c =
        let (first, _, apart) = Distinct-append (n ∷ ns) behind distinct in
        let inside = Seg-has t.heap none t.first q x n ns front in
        let outside = has_front c (n ∷ ns) behind out in
        let (nd, is, front') = Seg-set_next t.heap none t.first q (some c) x n ns first front in
        let nd' = set_next (some c) nd in
        let other : c ≢ x = λ same. absurd (ground (arith, outside.0, inside)) in
        (
          record t { heap = set t.heap x nd' },
          update_lem x (set_next (some c)) t nd is,
          front',
          Seg-set t.heap x nd' (some c) q t.last none behind (apart x inside) back,
          get_elem?-set_ne t.heap nd' (λ same. other (sym same)) ∙ is_c,
          set-Same t.heap x nd nd' is refl,
          length-set t.heap x nd',
        )

    -- The new clip c stands between the clips that start earlier and the first one that does not.
    pub record IsInserted (at : ℤ) (ns : List ℕ) (t t' : Track A) : Type 0 where
      pub before : List ℕ
      pub behind : List ℕ
      pub mid : Option ℕ
      pub cd' : Node A
      pub parts : ns ≡ before ++ behind
      pub earlier : All (StartsBefore t.heap at) before
      pub later : NoneBefore t.heap at behind
      pub around : Around c before mid t' cd' behind
      pub held : entry cd' ≡ entry cd
      pub same : Same t.heap t'.heap
      pub size : length t'.heap ≡ length t.heap

    -- A track whose clips are linked forwards and backwards, and a new clip that is not linked yet.
    pub insert_clip_lem :
        (at : ℤ) (ns : List ℕ) (t : Track A)
        → Seg t.heap none t.first ns t.last none
        → Distinct ns
        → length ns ≤ length t.heap
        → has c ns ≡ false
        → get_elem? t.heap c ≡ some cd
        → (t' : Track A) × (insert_clip c at t ≡ done t') × IsInserted at ns t t'
    unfolding insert_clip
    insert_clip_lem at ns t linked distinct enough out is_c =
        let (q, e, f) =
          clip_after_lem (suc (length t.heap)) at t.heap none t.first t.last ns (omega arith)
            linked in
        let distinct' : Distinct (f.before ++ f.behind) = rw (← f.parts) distinct in
        let out' : has c (f.before ++ f.behind) ≡ false = rw (← f.parts) out in
        let (t1, e1, front1, back1, c1, same1, size1) =
          link_next_lem f.before f.behind f.mid q t f.front f.back distinct' out' is_c in
        let (t2, e2, front2, back2, c2, same2, size2) =
          link_prev_lem f.before f.behind f.mid q t1 front1 back1 distinct' out' c1 in
        let cd1 = set_next q cd in
        let t3 = record t2 { heap = set t2.heap c cd1 } in
        let is_c1 = get_elem?-set_self t2.heap c cd1 (lt_of_get_elem? t2.heap c c2) in
        let cd2 = set_prev f.mid cd1 in
        let heap4 = set t3.heap c cd2 in
        let outside = has_front c f.before f.behind out' in
        let (first, second, apart) = Distinct-append f.before f.behind distinct' in
        (
          record t3 { heap = heap4 },
          rw (e, e1, e2, update_lem c (set_next q) t2 cd c2)
              (update_lem c (set_prev f.mid) t3 cd1 is_c1),
          record {
            before = f.before;
            behind = f.behind;
            mid = f.mid;
            cd' = cd2;
            parts = f.parts;
            earlier = f.earlier;
            later = f.later;
            around = record {
              front =
                  Seg-set t3.heap c cd2 none t2.first f.mid (some c) f.before outside.0
                    (Seg-set t2.heap c cd1 none t2.first f.mid (some c) f.before outside.0 front2);
              here = get_elem?-set_self t3.heap c cd2 (lt_of_get_elem? t3.heap c is_c1);
              prev = refl;
              back =
                  Seg-set t3.heap c cd2 (some c) q t2.last none f.behind outside.1
                    (Seg-set t2.heap c cd1 (some c) q t2.last none f.behind outside.1 back2);
              alone = outside.0;
              out = outside.1;
              distinct_before = first;
              distinct = second;
              apart = λ x is. elim (Bool-cases (has x f.before)) [
                | inl inside ↦ absurd (ground (arith, apart x inside))
                | inr away ↦ away
              ];
            };
            held = refl;
            same = λ k.
                set-Same t3.heap c cd1 cd2 is_c1 refl k
                ∙ set-Same t2.heap c cd cd1 c2 refl k
                ∙ same2 k
                ∙ same1 k;
            size = length-set t3.heap c cd2 ∙ length-set t2.heap c cd1 ∙ size2 ∙ size1;
          },
        )
