-- ===== src/Mixer/Mix/Contents.antt =====
-- mixer/mixer.go: the pointers of the mixer's map, and the buffers in its frames.
use phono.Base.{
  ℕ, zero, suc, ◌≤◌, ◌≡◌, refl, sym, ap, ◌∙◌, List, [], ◌∷◌, ◌++◌, Option, none, some, String,
  length, get_elem?, set, ltb, ◌==◌, if◌then◌else◌, arith, inl, inr, Bool-cases, ltb→lt,
  get_elem?-lt, get_elem?-ge, append_nil,
}
use text.Mathlib.TextEquality.{eq_iff}
use phono.Base.Dict.{lookup, insert, delete}
use phono.Buffer.{Buffer}
use phono.Mixer.Frames.{Frame, new_frame}
use phono.Mixer.Mix.Waiting.{Live, IsBelow}
use phono.Mixer.Mix.Chain.{Resets}
use phono.Mixer.Mix.Invariant.{pointers}

pub lookup-pointers :
    (id : String) (c : ℕ) (live : Live)
    → lookup id live ≡ some c
    → lookup id (pointers live) ≡ some (some c)
unfolding lookup
lookup-pointers id c [] h = cc
lookup-pointers id c ((other, d) ∷ live) h =
    ground (arith, lookup-pointers id c live, eq_iff other id)

pub insert-pointers :
    (id : String) (c : ℕ) (live : Live)
    → insert id (some c) (pointers live) ≡ pointers (insert id c live)
unfolding insert
insert-pointers id c [] = refl
insert-pointers id c ((other, d) ∷ live) = ground (arith, insert-pointers id c live)

pub delete-pointers :
    (id : String) (live : Live) → delete id (pointers live) ≡ pointers (delete id live)
unfolding delete
delete-pointers id [] = refl
delete-pointers id ((other, d) ∷ live) = ground (arith, delete-pointers id live)

pub length-pointers : (live : Live) → length (pointers live) ≡ length live
length-pointers [] = refl
length-pointers (e ∷ live) = ap suc (length-pointers live)

module _ {A : Type 0} where
  -- The buffers of frame number k, none if there is no such frame.
  abbrev pub buffers_or_none : Option (Frame A) → List (Buffer A)
  buffers_or_none none = []
  buffers_or_none (some f) = f.buffers

  abbrev pub contents : List (Frame A) → ℕ → List (Buffer A)
  contents heap k = buffers_or_none (get_elem? heap k)

  contents-set :
      (heap : List (Frame A)) (c k : ℕ) (f g : Frame A)
      → get_elem? heap c ≡ some f
      → contents (set heap c g) k ≡ (if c == k then g.buffers else contents heap k)
  contents-set [] c k f g h = cc
  contents-set (x ∷ heap) zero zero f g h = refl
  contents-set (x ∷ heap) zero (suc k) f g h = ground arith
  contents-set (x ∷ heap) (suc c) zero f g h = ground arith
  contents-set (x ∷ heap) (suc c) (suc k) f g h = contents-set heap c k f g h ∙ ground arith

  pub contents-append :
      (heap : List (Frame A)) (n k : ℕ) → contents (heap ++ new_frame n ∷ []) k ≡ contents heap k
  contents-append [] n zero = refl
  contents-append [] n (suc k) = refl
  contents-append (x ∷ heap) n zero = refl
  contents-append (x ∷ heap) n (suc k) = contents-append heap n k

  pub contents-filled :
      (heap : List (Frame A)) (c k : ℕ) (f g : Frame A) (b : Buffer A)
      → get_elem? heap c ≡ some f
      → g.buffers ≡ f.buffers ++ b ∷ []
      → contents (set heap c g) k ≡ contents heap k ++ (if c == k then b ∷ [] else [])
  contents-filled heap c k f g b h e = contents-set heap c k f g h ∙ elim (Bool-cases (c == k)) [
    | inl same ↦
        let at : c ≡ k = ground arith in
        rw same (e ∙ ap (λ o. buffers_or_none o ++ b ∷ []) (sym h ∙ ap (get_elem? heap) at))
    | inr other ↦ rw other (sym (append_nil (contents heap k)))
  ]

pub IsBelow-mono : (n : ℕ) (live : Live) → IsBelow n live → IsBelow (suc n) live
IsBelow-mono n [] h = tt
IsBelow-mono n ((id, c) ∷ live) h = (omega arith, IsBelow-mono n live h.1)

module _ {A : Type 0} where
  pub contents-reset :
      (c : ℕ) (heap heap' : List (Frame A)) (e : ℕ)
      → Resets heap c e heap'
      → (k : ℕ) → contents heap' k ≡ contents heap k
  contents-reset c heap heap' e resets k = elim (Bool-cases (ltb k (length heap'))) [
    | inl inside ↦
        let (g, is) = get_elem?-lt heap' k (ltb→lt k (length heap') inside) in
        let r = resets.1 k g is in
        ap buffers_or_none is ∙ r.same_buffers ∙ ap buffers_or_none (sym r.found)
    | inr outside ↦
        let far : length heap' ≤ k = ground arith in
        ap buffers_or_none
          (get_elem?-ge heap' k far ∙ sym (get_elem?-ge heap k (rw (← resets.0) far)))
  ]
