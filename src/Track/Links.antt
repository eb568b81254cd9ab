-- ===== src/Track/Links.antt =====
-- track/track.go: the links of the clips, forwards and backwards.
use phono.Base.{some-injective}
use phono.Base.{
  ℕ, zero, suc, ◌<◌, ◌≡◌, refl, ap, ◌∙◌, List, [], ◌∷◌, ◌++◌, Option, none, some, length, get_elem?,
  set, get_elem?-set_self, get_elem?-set_ne, ◌==◌, lt_of_get_elem?, All, arith, Bool, true, false,
  if◌then◌else◌, Bool-cases, inl, inr,
}
use phono.Base.Int.{ℤ, leb_ℤ}
use phono.Base.Outcome.{done}
use phono.Track.{Node, node, set_next, clip_after}

abbrev pub has : ℕ → List ℕ → Bool
has x [] = false
has x (n ∷ ns) = if n == x then true else has x ns

abbrev pub Distinct : List ℕ → Type 0
Distinct [] = Unit
Distinct (n ∷ ns) = (has n ns ≡ false) × Distinct ns

pub has-append : (x : ℕ) (ns ms : List ℕ) → has x (ns ++ ms) ≡ (if has x ns then true else has x ms)
has-append x [] ms = refl
has-append x (n ∷ ns) ms = ground (arith, has-append x ns ms)

pub has_front :
    (x : ℕ) (ns ms : List ℕ) → has x (ns ++ ms) ≡ false → (has x ns ≡ false) × (has x ms ≡ false)
has_front x [] ms h = (refl, h)
has_front x (n ∷ ns) ms h = ground (arith, has_front x ns ms)

-- The two parts of a list without repetitions.
pub Distinct-append :
    (ns ms : List ℕ)
    → Distinct (ns ++ ms)
    → Distinct ns × Distinct ms × ((x : ℕ) → has x ns ≡ true → has x ms ≡ false)
Distinct-append [] ms h = (tt, h, λ x is. cc)
Distinct-append (n ∷ ns) ms h =
    let (first, second, apart) = Distinct-append ns ms h.1 in
    let out = has_front n ns ms h.0 in
    (
      (out.0, first),
      second,
      λ x is. elim (Bool-cases (n == x)) [
        | inl same ↦ let at : n ≡ x = ground arith in rw (← at) out.1
        | inr other ↦ apart x (ground arith)
      ],
    )

module _ {A : Type 0} where
  -- From p, whose clip points back to `prev`, the links lead through the clips ns; the last one of
  -- them is `end`, and its next one is `stop`.
  abbrev pub Seg : List (Node A) → Option ℕ → Option ℕ → List ℕ → Option ℕ → Option ℕ → Type 0
  Seg heap prev p [] end stop = (p ≡ stop) × (prev ≡ end)
  Seg heap prev p (n ∷ ns) end stop =
      (p ≡ some n)
      × (nd : Node A) × (get_elem? heap n ≡ some nd)
      × (nd.prev ≡ prev)
      × Seg heap (some n) nd.next ns end stop

  pub Seg-append :
      (heap : List (Node A)) (prev p mid q end stop : Option ℕ) (ns ms : List ℕ)
      → Seg heap prev p ns mid q
      → Seg heap mid q ms end stop
      → Seg heap prev p (ns ++ ms) end stop
  Seg-append heap prev p mid q end stop [] ms (e, e') s = rw (e, e') s
  Seg-append heap prev p mid q end stop (n ∷ ns) ms (e, nd, is, back, rest) s =
      (e, nd, is, back, Seg-append heap (some n) nd.next mid q end stop ns ms rest s)

  -- A clip that is not in the segment may change.
  pub Seg-set :
      (heap : List (Node A)) (x : ℕ) (y : Node A) (prev p end stop : Option ℕ) (ns : List ℕ)
      → has x ns ≡ false
      → Seg heap prev p ns end stop
      → Seg (set heap x y) prev p ns end stop
  Seg-set heap x y prev p end stop [] out s = s
  Seg-set heap x y prev p end stop (n ∷ ns) out (e, nd, is, back, rest) = (
    e,
    nd,
    get_elem?-set_ne heap y (λ same. absurd (ground arith)) ∙ is,
    back,
    Seg-set heap x y (some n) nd.next end stop ns (ground arith) rest,
  )

  abbrev pub StartsBefore : List (Node A) → ℤ → ℕ → Type 0
  StartsBefore heap index n =
      (nd : Node A) × (get_elem? heap n ≡ some nd) × (leb_ℤ index nd.at ≡ false)

  -- The first clip, if there is one, starts at the index or behind it.
  abbrev pub NoneBefore : List (Node A) → ℤ → List ℕ → Type 0
  NoneBefore heap index [] = Unit
  NoneBefore heap index (n ∷ ns) =
      (nd : Node A) × (get_elem? heap n ≡ some nd) × (leb_ℤ index nd.at ≡ true)

  -- The clip at which a search ends, and the two parts of the list.
  pub record IsFound (heap : List (Node A)) (index : ℤ) (prev p end : Option ℕ) (ns : List ℕ)
      (q : Option ℕ) : Type 0 where
    pub before : List ℕ
    pub behind : List ℕ
    pub mid : Option ℕ
    pub parts : ns ≡ before ++ behind
    pub front : Seg heap prev p before mid q
    pub back : Seg heap mid q behind end none
    pub earlier : All (StartsBefore heap index) before
    pub later : NoneBefore heap index behind

  pub clip_after_lem :
      (fuel : ℕ) (index : ℤ) (heap : List (Node A)) (prev p end : Option ℕ) (ns : List ℕ)
      → length ns < fuel
      → Seg heap prev p ns end none
      → (q : Option ℕ) × (clip_after fuel index p heap ≡ done q)
        × IsFound heap index prev p end ns q
  unfolding clip_after node
  clip_after_lem zero index heap prev p end ns enough s = absurd (omega arith)
  clip_after_lem (suc fuel) index heap prev p end [] enough (e, e') = (
    none,
    rw e refl,
    record {
      before = [];
      behind = [];
      mid = prev;
      parts = refl;
      front = (e, refl);
      back = (refl, e');
      earlier = tt;
      later = tt;
    },
  )
  clip_after_lem (suc fuel) index heap prev p end (n ∷ ns) enough (e, nd, is, back, rest) =
      elim (Bool-cases (leb_ℤ index nd.at)) [
        | inl here ↦ (
          some n,
          rw (e, is, here) refl,
          record {
            before = [];
            behind = n ∷ ns;
            mid = prev;
            parts = refl;
            front = (e, refl);
            back = (refl, nd, is, back, rest);
            earlier = tt;
            later = (nd, is, here);
          },
        )
        | inr later ↦
            let (q, found, f) =
              clip_after_lem fuel index heap (some n) nd.next end ns (omega arith) rest in
            (
              q,
              rw (e, is, later) found,
              record {
                before = n ∷ f.before;
                behind = f.behind;
                mid = f.mid;
                parts = ap (◌∷◌ n) f.parts;
                front = (e, nd, is, back, f.front);
                back = f.back;
                earlier = ((nd, is, later), f.earlier);
                later = f.later;
              },
            )
      ]

  -- The last clip of a segment is one of it.
  pub Seg-has :
      (heap : List (Node A)) (prev p stop : Option ℕ) (x n : ℕ) (ns : List ℕ)
      → Seg heap prev p (n ∷ ns) (some x) stop
      → has x (n ∷ ns) ≡ true
  Seg-has heap prev p stop x n [] (e, nd, is, back, (e', e2)) =
      let at : n ≡ x = some-injective e2 in ground arith
  Seg-has heap prev p stop x n (m ∷ ns) (e, nd, is, back, rest) =
      let later = Seg-has heap (some n) nd.next stop x m ns rest in
      elim (Bool-cases (n == x)) [ inl same ↦ rw same refl | inr other ↦ rw other later ]

  -- Another clip behind the last one of a segment.
  pub Seg-set_next :
      (heap : List (Node A)) (prev p q q' : Option ℕ) (x n : ℕ) (ns : List ℕ)
      → Distinct (n ∷ ns)
      → Seg heap prev p (n ∷ ns) (some x) q
      → (nd : Node A) × (get_elem? heap x ≡ some nd)
        × Seg (set heap x (set_next q' nd)) prev p (n ∷ ns) (some x) q'
  Seg-set_next heap prev p q q' x n [] distinct (e, nd, is, back, (e', e2)) =
      let at : n ≡ x = some-injective e2 in
      (
        nd,
        rw (← at) is,
        (
          e,
          set_next q' nd,
          rw at
              (get_elem?-set_self heap x (set_next q' nd) (rw (← at) (lt_of_get_elem? heap n is))),
          back,
          (refl, e2),
        ),
      )
  Seg-set_next heap prev p q q' x n (m ∷ ns) distinct (e, nd, is, back, rest) =
      let (last, found, s) = Seg-set_next heap (some n) nd.next q q' x m ns distinct.1 rest in
      let later = Seg-has heap (some n) nd.next q x m ns rest in
      (
        last,
        found,
        (
          e,
          nd,
          get_elem?-set_ne heap (set_next q' last) (λ same. absurd (ground (arith, distinct.0)))
              ∙ is,
          back,
          s,
        ),
      )
