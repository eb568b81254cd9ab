-- ===== src/Track/Around.antt =====
-- track/track.go: a clip of a track, and the parts of the list before and behind it.
use mathlib.Core.Path.{subst}
use phono.Base.{
  some-injective, ◌==◌, ℕ, ◌≡◌, refl, sym, ap, ◌∙◌, List, [], ◌∷◌, ◌++◌, Option, none, some,
  get_elem?, set, get_elem?-set_self, get_elem?-set_ne, lt_of_get_elem?, arith, true, false,
  Bool-cases, inl, inr,
}
use phono.Base.Outcome.{done}
use phono.Track.{Node, Track, node, update}
use phono.Track.Links.{has, Distinct, Seg, Seg-append}

module _ {A : Type 0} where
  pub update_lem :
      (p : ℕ) (f : Node A → Node A) (t : Track A) (n : Node A)
      → get_elem? t.heap p ≡ some n
      → update p f t ≡ done (record t { heap = set t.heap p (f n) })
  unfolding update node
  update_lem p f t n is = rw is refl

  -- A clip of a segment may change, but for its links.
  pub Seg-relabel :
      (heap : List (Node A)) (x : ℕ) (nd y : Node A) (prev p end stop : Option ℕ) (ns : List ℕ)
      → get_elem? heap x ≡ some nd
      → y.next ≡ nd.next
      → y.prev ≡ nd.prev
      → Seg heap prev p ns end stop
      → Seg (set heap x y) prev p ns end stop
  Seg-relabel heap x nd y prev p end stop [] found next' prev' s = s
  Seg-relabel heap x nd y prev p end stop (n ∷ ns) found next' prev' (e, md, is, back, rest) =
      elim (Bool-cases (n == x)) [
        | inl same ↦
            let at : x ≡ n = ground arith in
            let one : md ≡ nd = some-injective (sym is ∙ ap (get_elem? heap) (sym at) ∙ found) in
            (
              e,
              y,
              ap (get_elem? (set heap x y)) (sym at)
                  ∙ get_elem?-set_self heap x y (lt_of_get_elem? heap x found),
              prev' ∙ ap (λ (m : Node A). m.prev) (sym one) ∙ back,
              subst (λ q. Seg (set heap x y) (some n) q ns end stop)
                  (ap (λ (m : Node A). m.next) one ∙ sym next')
                  (Seg-relabel heap x nd y (some n) md.next end stop ns found next' prev' rest),
            )
        | inr other ↦ (
          e,
          md,
          get_elem?-set_ne heap y (λ same. absurd (ground arith)) ∙ is,
          back,
          Seg-relabel heap x nd y (some n) md.next end stop ns found next' prev' rest,
        )
      ]

module _ {A : Type 0} (c : ℕ) (before : List ℕ) (mid : Option ℕ) where
  -- The clip c with its fields cd stands between `before` and `behind`.
  pub record Around (t : Track A) (cd : Node A) (behind : List ℕ) : Type 0 where
    pub front : Seg t.heap none t.first before mid (some c)
    pub here : get_elem? t.heap c ≡ some cd
    pub prev : cd.prev ≡ mid
    pub back : Seg t.heap (some c) cd.next behind t.last none
    pub alone : has c before ≡ false
    pub out : has c behind ≡ false
    pub distinct_before : Distinct before
    pub distinct : Distinct behind
    pub apart : (x : ℕ) → has x behind ≡ true → has x before ≡ false

  pub Around-Seg :
      (t : Track A) (cd : Node A) (behind : List ℕ)
      → Around t cd behind
      → Seg t.heap none t.first (before ++ c ∷ behind) t.last none
  Around-Seg t cd behind a =
      Seg-append t.heap none t.first mid (some c) t.last none before (c ∷ behind) a.front
        (refl, cd, a.here, a.prev, a.back)
