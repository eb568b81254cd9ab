-- ===== src/Buffer/Splitting.antt =====
-- phono.go: `Append` followed by `Slice`, the way a track and an asset use them.
use phono.Base.{
  ℕ, ◌+◌, ◌^◌, ◌<◌, ◌≡◌, refl, ap₂, List, [], ◌∷◌, map, some, arith, length, take, drop, take_all,
  length-drop,
}
use phono.Base.Int.{pos}
use phono.Base.Outcome.{done, ◌>>=◌}
use phono.Buffer.{size, slice, append, IsRect}
use phono.Buffer.Appending.{append-parts}
use phono.Buffer.Slicing.{slice_in}

module _ {ℓ} {A : Type ℓ} where
  size_of_rect : (n : ℕ) (cs : List (List A)) → 0 < length cs → IsRect n cs → size (some cs) ≡ n
  size_of_rect n [] h r = absurd (omega arith)
  size_of_rect n (c ∷ cs) h r = r.0

  map-take-drop :
      (n m : ℕ) (cs : List (List A))
      → IsRect (n + m) cs
      → map (λ c. take m (drop n c)) cs ≡ map (drop n) cs
  map-take-drop n m [] r = refl
  map-take-drop n m (c ∷ cs) r =
      ap₂ ◌∷◌ (take_all (drop n c) m (omega (arith, length-drop n c))) (map-take-drop n m cs r.1)

  -- After a buffer of m samples is appended to one of n samples with as many channels, and with
  -- room for the sum, the slice of n samples at 0 is the first buffer and the slice of m samples
  -- at n is the second, provided that each has a sample to begin with.
  slice-append :
      (n m : ℕ) (b s : List (List A))
      → IsRect n b
      → IsRect m s
      → length b ≡ length s
      → 0 < length b
      → 0 < n
      → 0 < m
      → n + m < 2 ^ 63
      → (do r ← append (some b) (some s); slice r (pos 0) (pos n)) ≡ done (some b)
        × ((do r ← append (some b) (some s); slice r (pos n) (pos m)) ≡ done (some s))
  slice-append n m b s hb hs l nonempty hn hm fits =
      let (r, e, rect, k, left, right) = append-parts n m b s hb hs l in
      let whole : size (some r) ≡ n + m = size_of_rect (n + m) r (omega arith) rect in
      let rect' : IsRect (size (some r)) r = rw whole rect in
      (
        rw (e, slice_in r 0 n rect' (omega arith) (omega arith), left),
        rw (e, slice_in r n m rect' (omega arith) (omega arith), map-take-drop n m r rect, right),
      )
