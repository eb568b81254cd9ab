-- ===== src/Pcm/Interleaving.antt =====
-- phono.go: the data that `Ints` makes, frame by frame.
use mathlib.Core.List.{append_assoc, append-nil}
use phono.Base.{
  ℕ, zero, suc, ◌+◌, ◌*◌, ◌≤◌, ◌<◌, ◌≡◌, refl, sym, ap, ap₂, ◌∙◌, List, [], ◌∷◌, ◌++◌, none, some,
  length, get_elem?, set-append, drop, drop_all, length-append, length-drop, length-replicate,
  replicate, arith, lt→ltb, get_elem?-lt, get_elem?-append_left, get_elem?-append_right,
}
use mathlib.Core.Option.{some-injective}
use phono.Base.Int.{ℤ, pos}
use phono.Base.Outcome.{done}
use phono.Buffer.{IsRect}
use phono.Pcm.{store, index, write_frame, write_frames, ints}

module _ {ℓ κ} {A : Type ℓ} {B : Type κ} (to_int : A → B) where
  -- The i-th samples of all channels.
  abbrev pub frame : ℕ → List (List A) → List B
  frame i [] = []
  frame i (c ∷ cs) = elim (get_elem? c i) [ none ↦ frame i cs | some x ↦ to_int x ∷ frame i cs ]

  -- The frames from i on, n of them.
  abbrev pub frames : List (List A) → ℕ → ℕ → List B
  frames cs i zero = []
  frames cs i (suc n) = frame i cs ++ frames cs (suc i) n

  pub length-frame :
      (n i : ℕ) (cs : List (List A)) → IsRect n cs → i < n → length (frame i cs) ≡ length cs
  length-frame n i [] r h = refl
  length-frame n i (c ∷ cs) r h =
      let (x, e) = get_elem?-lt c i (omega (arith, r.0)) in
      rw (e, length) (ap suc (length-frame n i cs r.1 h))

  index-some : (c : List A) (i : ℕ) {x : A} → get_elem? c i ≡ some x → index c i ≡ done x
  unfolding index
  index-some c i e = rw (e, index)

  frame_cons :
      (c : List A) (cs : List (List A)) (i : ℕ) {x : A}
      → get_elem? c i ≡ some x
      → frame i (c ∷ cs) ≡ to_int x ∷ frame i cs
  frame_cons c cs i e = rw (e, frame)

  store_next :
      (pre post : List B) (y v : B) (k : ℕ)
      → k ≡ length pre
      → store (pre ++ y ∷ post) k v ≡ done ((pre ++ v ∷ []) ++ post)
  unfolding store
  store_next pre post y v k h = rw (
    lt→ltb k (length (pre ++ y ∷ post)) (omega (arith, length-append pre (y ∷ post))),
    set-append pre post y v k h,
    append_assoc pre (v ∷ []) post,
  )

  write_frame_step :
      (nc i j : ℕ) (c : List A) (cs : List (List A)) (pre post : List B) (y : B) (x : A)
      → get_elem? c i ≡ some x
      → length pre ≡ i * nc + j
      → write_frame to_int nc i j (c ∷ cs) (pre ++ y ∷ post)
        ≡ write_frame to_int nc i (suc j) cs ((pre ++ to_int x ∷ []) ++ post)
  unfolding write_frame
  write_frame_step nc i j c cs pre post y x e l =
      rw (index-some c i e, store_next pre post y (to_int x) (i * nc + j) (sym l))

  -- One round of the outer loop writes one frame behind what is written already.
  write_frame_lem :
      (n nc i j : ℕ) (cs : List (List A)) (pre post : List B)
      → IsRect n cs
      → i < n
      → length pre ≡ i * nc + j
      → length cs ≤ length post
      → write_frame to_int nc i j cs (pre ++ post)
        ≡ done ((pre ++ frame i cs) ++ drop (length cs) post)
  unfolding write_frame
  write_frame_lem n nc i j [] pre post r h l k = rw (append-nil pre)
  write_frame_lem n nc i j (c ∷ cs) pre [] r h l k = absurd (omega arith)
  write_frame_lem n nc i j (c ∷ cs) pre (y ∷ post) r h l k =
      let (x, e) = get_elem?-lt c i (omega (arith, r.0)) in
      let pre' : List B = pre ++ to_int x ∷ [] in
      let l' : length pre' ≡ i * nc + suc j = omega (arith, length-append pre (to_int x ∷ [])) in
      write_frame_step nc i j c cs pre post y x e l
      ∙ write_frame_lem n nc i (suc j) cs pre' post r.1 h l' (omega arith)
      ∙ ap (λ t. done (t ++ drop (length cs) post))
          (append_assoc pre (to_int x ∷ []) (frame i cs)
            ∙ ap (◌++◌ pre) (sym (frame_cons c cs i e)))

  drop-drop : (m n : ℕ) (xs : List B) → drop n (drop m xs) ≡ drop (m + n) xs
  drop-drop zero n xs = ap (λ k. drop k xs) (omega arith)
  drop-drop (suc m) n [] = drop_all [] n (omega arith) ∙ sym (drop_all [] (suc m + n) (omega arith))
  drop-drop (suc m) n (x ∷ xs) =
      let next : suc (m + n) ≡ suc m + n = omega arith in
      drop-drop m n xs ∙ ap (λ k. drop k (x ∷ xs)) next

  -- The frames that are written, and the rest of the data, which stays.
  pub write_frames_lem :
      (n k i : ℕ) (b : List (List A)) (pre post : List B)
      → IsRect n b
      → i + k ≤ n
      → length pre ≡ i * length b
      → k * length b ≤ length post
      → write_frames to_int (length b) b k i (pre ++ post)
        ≡ done ((pre ++ frames b i k) ++ drop (k * length b) post)
  unfolding write_frames
  write_frames_lem n zero i b pre post r h l m =
      let none_left : 0 ≡ 0 * length b = omega arith in
      ap₂ (λ t k. done (t ++ drop k post)) (sym (append-nil pre)) none_left
  write_frames_lem n (suc k) i b pre post r h l m =
      let rest = drop (length b) post in
      let sizes : length b + k * length b ≡ suc k * length b = omega arith in
      rw (write_frame_lem n (length b) i 0 b pre post r (omega arith) (omega arith) (omega arith)) (
        write_frames_lem n k (suc i) b (pre ++ frame i b) rest r (omega arith)
          (omega (arith, length-append pre (frame i b), length-frame n i b r (omega arith)))
          (omega (arith, length-drop (length b) post))
        ∙ ap₂ (λ t u. done (t ++ u)) (append_assoc pre (frame i b) (frames b (suc i) k))
            (drop-drop (length b) (k * length b) post ∙ ap (λ n. drop n post) sizes))

  pub length-frames :
      (n i k : ℕ) (b : List (List A))
      → IsRect n b
      → i + k ≤ n
      → length (frames b i k) ≡ k * length b
  length-frames n i zero b r h = omega arith
  length-frames n i (suc k) b r h = omega (
    arith,
    length-append (frame i b) (frames b (suc i) k),
    length-frame n i b r (omega arith),
    length-frames n (suc i) k b r (omega arith),
  )

  get_elem?-frame :
      (n i j : ℕ) (b : List (List A)) {c : List A} {x : A}
      → IsRect n b
      → i < n
      → get_elem? b j ≡ some c
      → get_elem? c i ≡ some x
      → get_elem? (frame i b) j ≡ some (to_int x)
  get_elem?-frame n i j [] r h e f = cc
  get_elem?-frame n i zero (c ∷ cs) {c = d} r h e f =
      rw (frame_cons c cs i (rw (← some-injective _ _ e) at f))
  get_elem?-frame n i (suc j) (c ∷ cs) r h e f =
      let (y, g) = get_elem?-lt c i (omega (arith, r.0)) in
      rw (frame_cons c cs i g) (get_elem?-frame n i j cs r.1 h e f)

  -- Number i * nc + j of the data is sample i of channel j.
  pub get_elem?-frames :
      (n i k t j : ℕ) (b : List (List A)) {c : List A} {x : A}
      → IsRect n b
      → i + k ≤ n
      → t < k
      → get_elem? b j ≡ some c
      → j < length b
      → get_elem? c (i + t) ≡ some x
      → get_elem? (frames b i k) (t * length b + j) ≡ some (to_int x)
  get_elem?-frames n i zero t j b r h l e m f = absurd (omega arith)
  get_elem?-frames n i (suc k) zero j b {c} {x} r h l e m f =
      get_elem?-append_left (frame i b) (frames b (suc i) k) (0 * length b + j)
        (omega (arith, length-frame n i b r (omega arith)))
      ∙ ap (get_elem? (frame i b)) (omega arith)
      ∙ get_elem?-frame n i j b r (omega arith) e (ap (get_elem? c) (omega arith) ∙ f)
  get_elem?-frames n i (suc k) (suc t) j b {c} {x} r h l e m f =
      get_elem?-append_right (frame i b) (frames b (suc i) k) (suc t * length b + j)
        (t * length b + j) (omega (arith, length-frame n i b r (omega arith)))
      ∙ get_elem?-frames n (suc i) k t j b r (omega arith) (omega arith) e m
          (ap (get_elem? c) (omega arith) ∙ f)

module _ {ℓ} {A : Type ℓ} (to_int : A → ℤ) where
  -- `Ints` of a rectangular buffer with a channel holds its frames one after another.
  pub ints-frames :
      (c : List A) (cs : List (List A))
      → IsRect (length c) (c ∷ cs)
      → ints to_int (some (c ∷ cs)) ≡ done (some (frames to_int (c ∷ cs) 0 (length c)))
  unfolding ints
  ints-frames c cs r =
      let size = length c * length (c ∷ cs) in
      let blank : List ℤ = replicate size (pos 0) in
      let all : length blank ≡ size = length-replicate size (pos 0) in
      rw
        (
          write_frames_lem to_int (length c) (length c) 0 (c ∷ cs) [] blank r (omega arith)
              (omega arith) (omega (arith, all)),
          drop_all blank size (omega (arith, all)),
          append-nil (frames to_int (c ∷ cs) 0 (length c)),
        )
        refl
