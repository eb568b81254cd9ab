-- ===== src/Buffer/Slicing.antt =====
-- phono.go: what `Slice` promises.
use phono.Base.{
  ℕ, ◌+◌, ◌-◌, ◌^◌, min, ◌≤◌, ◌<◌, ◌≡◌, refl, sym, ap, ap₂, ◌∙◌, ◌⊎◌, true, false, ◌&&◌, ◌||◌, List,
  [], ◌∷◌, map, none, some, arith, length, take, drop, length-drop, take_all, if◌then◌else◌,
}
use native.Mathlib.Decide.{dec_le}
use phono.Base.Int.{ℤ, pos, ltb_ℤ, leb_ℤ, ◌≤ℤ◌, ◌<ℤ◌, add64, add64_pos}
use phono.Base.Outcome.{done, panic}
use phono.Buffer.{Buffer, size, slice_expr, slice_channels, slice, IsRect}

in_bounds :
    (lo hi n : ℕ)
    → lo ≤ hi
    → hi ≤ n
    → (leb_ℤ (pos 0) (pos lo) && (leb_ℤ (pos lo) (pos hi) && leb_ℤ (pos hi) (pos n))) ≡ true
in_bounds lo hi n h k = ground arith

reversed_bounds :
    (lo n : ℕ) (hi : ℤ)
    → ltb_ℤ hi (pos lo) ≡ true
    → (leb_ℤ (pos 0) (pos lo) && (leb_ℤ (pos lo) hi && leb_ℤ hi (pos n))) ≡ false
reversed_bounds lo n hi h = ground arith

cut_end : (n stop : ℕ) → (if ltb_ℤ (pos n) (pos stop) then pos n else pos stop) ≡ pos (min n stop)
cut_end n stop = ground arith

min_twice : (n stop : ℕ) → min n (min n stop) ≡ min n stop
min_twice n stop = omega arith

pub starts_inside :
    (n start : ℕ) → start < n → (leb_ℤ (pos n) (pos start) || ltb_ℤ (pos start) (pos 0)) ≡ false
starts_inside n start h = ground arith

pub starts_outside_lem :
    (n : ℕ) (start : ℤ)
    → (pos n ≤ℤ start) ⊎ (start <ℤ pos 0)
    → (leb_ℤ (pos n) start || ltb_ℤ start (pos 0)) ≡ true
starts_outside_lem n start h = ground arith

keep_end :
    (n start : ℕ) (stop : ℤ)
    → start < n
    → stop <ℤ pos start
    → (if ltb_ℤ (pos n) stop then pos n else stop) ≡ stop
keep_end n start stop h k = ground arith

test_of_lt : (a : ℤ) (b : ℕ) → a <ℤ pos b → ltb_ℤ a (pos b) ≡ true
test_of_lt a b h = ground arith

module _ {ℓ} {A : Type ℓ} where
  slice_expr_in :
      (c : List A) (lo hi : ℕ)
      → lo ≤ hi
      → hi ≤ length c
      → slice_expr c (pos lo) (pos hi) ≡ done (take (hi - lo) (drop lo c))
  unfolding slice_expr
  slice_expr_in c lo hi h k = rw (in_bounds lo hi (length c) h k)

  slice_expr_reversed :
      (c : List A) (lo : ℕ) (hi : ℤ) → ltb_ℤ hi (pos lo) ≡ true → slice_expr c (pos lo) hi ≡ panic
  unfolding slice_expr
  slice_expr_reversed c lo hi h = rw (reversed_bounds lo (length c) hi h)

  -- Cutting `len` samples off the end of a channel stops at its end.
  take_cut :
      (c : List A) (n start len : ℕ)
      → length c ≡ n
      → start < n
      → take (min n (start + len) - start) (drop start c) ≡ take len (drop start c)
  take_cut c n start len h k = elim (dec_le (start + len) n) [
    | yes fits ↦ ap (λ t. take t (drop start c)) (omega arith)
    | no long ↦
        take_all (drop start c) (min n (start + len) - start) (omega (arith, length-drop start c))
        ∙ sym (take_all (drop start c) len (omega (arith, length-drop start c)))
  ]

  slice_channels_in :
      (n start stop : ℕ) (cs : List (List A))
      → start ≤ min n stop
      → IsRect n cs
      → slice_channels n (pos start) (pos stop) cs
        ≡ done (map (λ c. take (min n stop - start) (drop start c)) cs)
  unfolding slice_channels
  slice_channels_in n start stop [] h r = refl
  slice_channels_in n start stop (c ∷ cs) h r = rw (
    cut_end n stop,
    slice_expr_in c start (min n stop) h (omega (arith, r.0)),
    slice_channels_in n start (min n stop) cs (omega arith) r.1,
    min_twice n stop,
  )

  map_cut :
      (n start len : ℕ) (cs : List (List A))
      → start < n
      → IsRect n cs
      → map (λ c. take (min n (start + len) - start) (drop start c)) cs
        ≡ map (λ c. take len (drop start c)) cs
  map_cut n start len [] h r = refl
  map_cut n start len (c ∷ cs) h r =
      ap₂ ◌∷◌ (take_cut c n start len r.0 h) (map_cut n start len cs h r.1)

  -- A range that starts within a rectangular buffer: from every channel the samples from `start`
  -- on, `len` of them or as many as there are.
  pub slice_in :
      (cs : List (List A)) (start len : ℕ)
      → IsRect (size (some cs)) cs
      → start < size (some cs)
      → start + len < 2 ^ 63
      → slice (some cs) (pos start) (pos len) ≡ done (some (map (λ c. take len (drop start c)) cs))
  unfolding slice
  slice_in cs start len r h k = rw (
    starts_inside (size (some cs)) start h,
    add64_pos start len k,
    slice_channels_in (size (some cs)) start (start + len) cs (omega arith) r,
    map_cut (size (some cs)) start len cs h r,
  )

  -- A range that starts outside, or any range of the nil buffer: nil.
  pub slice_outside :
      (b : Buffer A) (start len : ℤ)
      → (pos (size b) ≤ℤ start) ⊎ (start <ℤ pos 0)
      → slice b start len ≡ done none
  unfolding slice
  slice_outside none start len h = refl
  slice_outside (some cs) start len h = rw (starts_outside_lem (size (some cs)) start h)

  -- A range that starts within the buffer and whose computed end, after the wrap-around, lies
  -- before its start: the slice expression panics.
  pub slice_panics :
      (cs : List (List A)) (start : ℕ) (len : ℤ)
      → start < size (some cs)
      → add64 (pos start) len <ℤ pos start
      → slice (some cs) (pos start) len ≡ panic
  unfolding slice
  slice_panics [] start len h k = absurd (omega arith)
  slice_panics (c ∷ cs) start len h k = rw (starts_inside (length c) start h) (
      rw (
        keep_end (length c) start (add64 (pos start) len) h k,
        slice_expr_reversed c start (add64 (pos start) len) (test_of_lt _ start k),
      ))
