-- ===== src/Buffer/Appending.antt =====
-- phono.go: what `Append` and `EmptyBuffer` promise.
use phono.Base.{
  ℕ, suc, ◌+◌, ◌≤◌, ◌<◌, ◌≡◌, refl, ap, ap₂, List, [], ◌∷◌, ◌++◌, map, none, some, arith, length,
  length-append, take, drop, replicate, take-append, drop-append,
}
use phono.Base.Outcome.{done, panic, >>=-eq-done, done-injective}
use phono.Buffer.{append_channels, append, IsRect}

module _ {ℓ} {A : Type ℓ} where
  append_channels_empty : (s : List (List A)) → append_channels (replicate (length s) []) s ≡ done s
  unfolding append_channels
  append_channels_empty [] = refl
  append_channels_empty (c ∷ s) = rw (append_channels_empty s)

  -- Appending to the nil buffer gives a copy of the source.
  pub append-none : (s : List (List A)) → append none (some s) ≡ done (some s)
  unfolding append
  append-none s = rw (append_channels_empty s)

  pub append_channels_total :
      (b s : List (List A))
      → length s ≤ length b
      → (r : List (List A)) × (append_channels b s ≡ done r) × (length r ≡ length b)
  unfolding append_channels
  append_channels_total b [] h = (b, refl, refl)
  append_channels_total [] (c ∷ s) h = absurd (omega arith)
  append_channels_total (d ∷ b) (c ∷ s) h =
      let (r, e, l) = append_channels_total b s (omega arith) in ((d ++ c) ∷ r, rw e, ap suc l)

  append_channels_panics : (b s : List (List A)) → length b < length s → append_channels b s ≡ panic
  unfolding append_channels
  append_channels_panics b [] h = absurd (omega arith)
  append_channels_panics [] (c ∷ s) h = refl
  append_channels_panics (d ∷ b) (c ∷ s) h = rw (append_channels_panics b s (omega arith))

  pub append_channels-parts :
      (n m : ℕ) (b s : List (List A)) {r : List (List A)}
      → IsRect n b
      → IsRect m s
      → length b ≡ length s
      → append_channels b s ≡ done r
      → IsRect (n + m) r × (map (take n) r ≡ b) × (map (drop n) r ≡ s)
  unfolding append_channels
  append_channels-parts n m [] [] hb hs l e = rw (← done-injective e) (tt, refl, refl)
  append_channels-parts n m [] (c ∷ s) hb hs l e = absurd (omega arith)
  append_channels-parts n m (d ∷ b) [] hb hs l e = absurd (omega arith)
  append_channels-parts n m (d ∷ b) (c ∷ s) hb hs l e =
      let (r, rest, whole) = >>=-eq-done (append_channels b s) _ e in
      let (rect, left, right) = append_channels-parts n m b s hb.1 hs.1 (omega arith) rest in
      rw (← done-injective whole) (
        (omega (arith, length-append d c), rect),
        ap₂ ◌∷◌ (take-append d c n hb.0) left,
        ap₂ ◌∷◌ (drop-append d c n hb.0) right,
      )

  -- Appending one buffer to another: it fails exactly if the source has more channels, and
  -- otherwise the parts are found again before and behind the old size.
  pub append-parts :
      (n m : ℕ) (b s : List (List A))
      → IsRect n b
      → IsRect m s
      → length b ≡ length s
      → (r : List (List A)) × (append (some b) (some s) ≡ done (some r))
        × IsRect (n + m) r
        × (length r ≡ length b)
        × (map (take n) r ≡ b)
        × (map (drop n) r ≡ s)
  unfolding append
  append-parts n m b s hb hs l =
      let (r, e, k) = append_channels_total b s (omega arith) in
      let (rect, left, right) = append_channels-parts n m b s hb hs l e in
      (r, rw e, rect, k, left, right)

  pub append_panics : (b s : List (List A)) → length b < length s → append (some b) (some s) ≡ panic
  unfolding append
  append_panics b s h = rw (append_channels_panics b s h)
