-- ===== src/Buffer/Clipping.antt =====
-- phono.go: what `Clip` promises.
use phono.Base.{
  ℕ, ◌+◌, ◌-◌, ◌^◌, ◌<◌, ◌≡◌, refl, ap, ap₂, ◌∙◌, sym, ◌⊎◌, inl, List, [], ◌∷◌, map, none, some,
  arith, length, take, drop, min, if◌then◌else◌, take_all, length-drop,
}
use native.Mathlib.Decide.{dec_le, dec_lt}
use phono.Base.Int.{ℤ, pos, leb_ℤ, sub64, add64_pos, ◌≤ℤ◌, ◌<ℤ◌}
use phono.Buffer.{Buffer, size, slice, clip, no_clip, IsRect}
use phono.Buffer.Slicing.{slice_in, slice_outside, starts_inside, starts_outside_lem}

cut_len :
    (n start len : ℕ)
    → start < n
    → n < 2 ^ 63
    → (if leb_ℤ (pos n) (pos (start + len)) then sub64 (pos n) (pos start) else pos len)
      ≡ pos (min len (n - start))
unfolding sub64
cut_len n start len h k = ground arith

module _ {ℓ} {A : Type ℓ} where
  -- A clip that starts within the buffer lies in it: it has the requested start, and the requested
  -- length or what is left of the buffer.
  pub clip_in :
      (cs : List (List A)) (start len : ℕ)
      → start < size (some cs)
      → size (some cs) < 2 ^ 63
      → start + len < 2 ^ 63
      → clip (some cs) (pos start) (pos len) ≡ record {
        buffer = some cs;
        start = pos start;
        len = pos (min len (size (some cs) - start));
      }
  unfolding clip
  clip_in cs start len h k e = rw (
    add64_pos start len e,
    starts_inside (size (some cs)) start h,
    cut_len (size (some cs)) start len h k,
  )

  -- Otherwise the clip is empty.
  pub clip_outside :
      (b : Buffer A) (start len : ℤ)
      → (pos (size b) ≤ℤ start) ⊎ (start <ℤ pos 0)
      → clip b start len ≡ no_clip
  unfolding clip
  clip_outside none start len h = refl
  clip_outside (some cs) start len h = rw (starts_outside_lem (size (some cs)) start h)

  take-min :
      (c : List A) (n start len : ℕ)
      → length c ≡ n
      → take (min len (n - start)) (drop start c) ≡ take len (drop start c)
  take-min c n start len h = elim (dec_le len (n - start)) [
    | yes fits ↦ ap (λ t. take t (drop start c)) (omega arith)
    | no long ↦
        take_all (drop start c) (min len (n - start)) (omega (arith, length-drop start c))
        ∙ sym (take_all (drop start c) len (omega (arith, length-drop start c)))
  ]

  map-take-min :
      (n start len : ℕ) (cs : List (List A))
      → IsRect n cs
      → map (λ c. take (min len (n - start)) (drop start c)) cs
        ≡ map (λ c. take len (drop start c)) cs
  map-take-min n start len [] r = refl
  map-take-min n start len (c ∷ cs) r =
      ap₂ ◌∷◌ (take-min c n start len r.0) (map-take-min n start len cs r.1)

  -- A clip is a view: the slice that it describes is the slice that was asked for, also where the
  -- clip was shortened or came out empty.
  slice-clip :
      (cs : List (List A)) (start len : ℕ)
      → IsRect (size (some cs)) cs
      → size (some cs) < 2 ^ 63
      → start + len < 2 ^ 63
      → let c = clip (some cs) (pos start) (pos len) in
        slice c.buffer c.start c.len ≡ slice (some cs) (pos start) (pos len)
  slice-clip cs start len r k e = elim (dec_lt start (size (some cs))) [
    | yes h ↦ rw (
      clip_in cs start len h k e,
      slice_in cs start len r h e,
      slice_in cs start (min len (size (some cs) - start)) r h (omega arith),
      map-take-min (size (some cs)) start len cs r,
    )
    | no h ↦ rw (
      clip_outside (some cs) (pos start) (pos len) (inl (omega arith)),
      slice_outside {A = A} none (pos 0) (pos 0) (inl (omega arith)),
      slice_outside (some cs) (pos start) (pos len) (inl (omega arith)),
    )
  ]
