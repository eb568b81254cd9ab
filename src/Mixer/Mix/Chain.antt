-- ===== src/Mixer/Mix/Chain.antt =====
-- mixer/mixer.go: writing to a frame, adding one behind the last, and `resetExpectations`.
use phono.Base.{some-injective}
use phono.Base.{
  ℕ, zero, suc, ◌+◌, ◌≤◌, ◌<◌, ◌≡◌, ◌≢◌, refl, sym, ap, ◌∙◌, List, [], ◌∷◌, ◌++◌, none, some,
  length, get_elem?, set, ltb, leb, ◌==◌, if◌then◌else◌, arith, inl, inr, ◌⊎◌, Bool-cases, ltb→lt,
  get_elem?-lt, length-set, lt_of_get_elem?,
}
use phono.Base.Outcome.{done}
use phono.Mixer.Frames.{Frame, deref, reset_expectations}
use phono.Mixer.Mix.Invariant.{next_of}

-- What is found after a write.
pub get-set :
    {B : Type 0} (l : List B) (p : ℕ) (v : B) (j : ℕ) (x : B)
    → get_elem? (set l p v) j ≡ some x
    → ((j ≡ p) × (x ≡ v)) ⊎ ((j ≢ p) × (get_elem? l j ≡ some x))
get-set [] p v j x e = cc
get-set (y ∷ l) zero v zero x e = inl (refl, some-injective (sym e))
get-set (y ∷ l) zero v (suc j) x e = inr (omega arith, e)
get-set (y ∷ l) (suc p) v zero x e = inr (omega arith, e)
get-set (y ∷ l) (suc p) v (suc j) x e = elim (get-set l p v j x e) [
  | inl (same, found) ↦ inl (ap suc same, found)
  | inr (other, found) ↦ inr (omega arith, found)
]

-- What is found after one more at the end.
pub get-append :
    {B : Type 0} (l : List B) (v : B) (j : ℕ) (x : B)
    → get_elem? (l ++ v ∷ []) j ≡ some x
    → ((j ≡ length l) × (x ≡ v)) ⊎ ((j < length l) × (get_elem? l j ≡ some x))
get-append [] v zero x e = inl (refl, some-injective (sym e))
get-append [] v (suc j) x e = cc
get-append (y ∷ l) v zero x e = inr (omega arith, e)
get-append (y ∷ l) v (suc j) x e = elim (get-append l v j x e) [
  | inl (same, found) ↦ inl (ap suc same, found)
  | inr (before, found) ↦ inr (omega arith, found)
]

module _ {A : Type 0} where
  abbrev pub IsChain : List (Frame A) → Type 0
  IsChain heap =
      (k : ℕ) (f : Frame A) → get_elem? heap k ≡ some f → f.next ≡ next_of k (length heap)

  -- A frame g of the new store at number j, as it was, but for its expectation from number p on.
  pub record IsReset (heap : List (Frame A)) (p e j : ℕ) (g : Frame A) : Type 0 where
    pub old : Frame A
    pub found : get_elem? heap j ≡ some old
    pub same_buffers : g.buffers ≡ old.buffers
    pub same_next : g.next ≡ old.next
    pub expectation : g.expected ≡ (if leb p j then e else old.expected)

  reset_step :
      (fuel p e : ℕ) (f : Frame A) (heap : List (Frame A))
      → get_elem? heap p ≡ some f
      → reset_expectations (suc fuel) (some p) e heap
        ≡ reset_expectations fuel f.next e (set heap p (record f { expected = e }))
  unfolding reset_expectations deref
  reset_step fuel p e f heap h = rw h refl

  reset-none :
      (fuel e : ℕ) (heap : List (Frame A))
      → 1 ≤ fuel
      → reset_expectations fuel none e heap ≡ done heap
  unfolding reset_expectations
  reset-none zero e heap h = absurd (omega arith)
  reset-none (suc fuel) e heap h = refl

  set-IsReset :
      (heap : List (Frame A)) (p e : ℕ) (f : Frame A)
      → get_elem? heap p ≡ some f
      → (j : ℕ) (g : Frame A) → get_elem? (set heap p (record f { expected = e })) j ≡ some g
      → (old : Frame A) × (get_elem? heap j ≡ some old)
        × (g.buffers ≡ old.buffers)
        × (g.next ≡ old.next)
        × (g.expected ≡ (if j == p then e else old.expected))
  set-IsReset heap p e f h j g found = elim (get-set heap p (record f { expected = e }) j g found) [
    | inl (same, is) ↦
        let written : g.expected ≡ e = ap (λ (x : Frame A). x.expected) is in
        (
          f,
          ap (get_elem? heap) same ∙ h,
          ap (λ (x : Frame A). x.buffers) is,
          ap (λ (x : Frame A). x.next) is,
          ground arith,
        )
    | inr (other, is) ↦ (g, is, refl, refl, ground arith)
  ]

  set-IsChain :
      (heap : List (Frame A)) (p e : ℕ) (f : Frame A)
      → get_elem? heap p ≡ some f
      → IsChain heap
      → IsChain (set heap p (record f { expected = e }))
  set-IsChain heap p e f h chain k g found =
      let (old, was, b, n, x) = set-IsReset heap p e f h k g found in
      n ∙ rw (length-set heap p (record f { expected = e })) (chain k old was)

  -- From a frame on, every expectation is replaced and nothing else.
  abbrev pub Resets : List (Frame A) → ℕ → ℕ → List (Frame A) → Type 0
  Resets heap p e heap' =
      (length heap' ≡ length heap)
      × ((j : ℕ) (g : Frame A) → get_elem? heap' j ≡ some g → IsReset heap p e j g)

  reset_trans :
      (heap heap' : List (Frame A)) (p e : ℕ) (f : Frame A)
      → get_elem? heap p ≡ some f
      → Resets (set heap p (record f { expected = e })) (suc p) e heap'
      → Resets heap p e heap'
  reset_trans heap heap' p e f h (l, r) = (
    l ∙ length-set heap p (record f { expected = e }),
    λ j g found.
        let first = r j g found in
        let (old, was, b, n, x) = set-IsReset heap p e f h j first.old first.found in
        let expectation = first.expectation in
        record {
          old = old;
          found = was;
          same_buffers = first.same_buffers ∙ b;
          same_next = first.same_next ∙ n;
          expectation = ground arith;
        },
  )

  pub reset_lem :
      (fuel p e : ℕ) (heap : List (Frame A))
      → IsChain heap
      → p < length heap
      → length heap < fuel + p
      → (heap' : List (Frame A)) × (reset_expectations fuel (some p) e heap ≡ done heap')
        × Resets heap p e heap'
  reset_lem zero p e heap chain lt h = absurd (omega arith)
  reset_lem (suc fuel) p e heap chain lt h =
      let (f, is) = get_elem?-lt heap p lt in
      let step = reset_step fuel p e f heap is in
      let heap1 = set heap p (record f { expected = e }) in
      let same = length-set heap p (record f { expected = e }) in
      elim (Bool-cases (ltb (suc p) (length heap))) [
        | inl more ↦
            let next : f.next ≡ some (suc p) = chain p f is ∙ rw more refl in
            let before = ltb→lt (suc p) (length heap) more in
            let (heap', e', r) =
              reset_lem fuel (suc p) e heap1 (set-IsChain heap p e f is chain) (omega arith)
                (omega arith) in
            (
              heap',
              step ∙ ap (λ n. reset_expectations fuel n e heap1) next ∙ e',
              reset_trans heap heap' p e f is r,
            )
        | inr last ↦
            let next : f.next ≡ none = chain p f is ∙ rw last refl in
            let end : suc p ≡ length heap = ground arith in
            (
              heap1,
              step
                  ∙ ap (λ n. reset_expectations fuel n e heap1) next
                  ∙ reset-none fuel e heap1 (omega arith),
              reset_trans heap heap1 p e f is (
                refl,
                λ j g found. record {
                  old = g;
                  found = found;
                  same_buffers = refl;
                  same_next = refl;
                  expectation = let below = lt_of_get_elem? heap1 j found in ground arith;
                },
              ),
            )
      ]
