-- ===== src/Asset/Keeping.antt =====
-- asset/asset.go: what an asset holds after any number of buffers.
use phono.Base.{
  ℕ, zero, suc, ◌≡◌, refl, sym, ap, ◌∙◌, List, [], ◌∷◌, ◌++◌, Option, none, some, String, length,
  All, get_elem?, map, arith,
}
use phono.Base.Outcome.{done, >>=-eq-done, done-injective}
use phono.Buffer.{append, append_channels}
use phono.Buffer.Appending.{append_channels_total, append-none}
use phono.Asset.{Asset, new_asset, reset, sink, sink_all, single_use, single_use_reused}

module _ {A : Type 0} where
  -- A channel by its number, empty where there is none.
  abbrev pub or_silent : Option (List A) → List A
  or_silent none = []
  or_silent (some c) = c

  abbrev pub channel : ℕ → List (List A) → List A
  channel i b = or_silent (get_elem? b i)

  -- The samples that all buffers have for one channel, one buffer after the other.
  abbrev pub channel_of_all : ℕ → List (List (List A)) → List A
  channel_of_all i [] = []
  channel_of_all i (b ∷ bs) = channel i b ++ channel_of_all i bs

  pub append_channels-channel :
      (b s : List (List A)) {r : List (List A)} (i : ℕ)
      → length s ≡ length b
      → append_channels b s ≡ done r
      → channel i r ≡ channel i b ++ channel i s
  unfolding append_channels
  append_channels-channel [] [] i l e = rw (← done-injective e) refl
  append_channels-channel [] (c ∷ s) i l e = absurd (omega arith)
  append_channels-channel (d ∷ b) [] i l e = absurd (omega arith)
  append_channels-channel (d ∷ b) (c ∷ s) zero l e =
      let (r, rest, whole) = >>=-eq-done (append_channels b s) _ e in
      rw (← done-injective whole) refl
  append_channels-channel (d ∷ b) (c ∷ s) (suc i) l e =
      let (r, rest, whole) = >>=-eq-done (append_channels b s) _ e in
      rw (← done-injective whole) (append_channels-channel b s i (omega arith) rest)

  append_assoc : (a b c : List A) → (a ++ b) ++ c ≡ a ++ (b ++ c)
  append_assoc [] b c = refl
  append_assoc (x ∷ a) b c = ap (◌∷◌ x) (append_assoc a b c)

  append_empty : (a : List A) → a ≡ a ++ []
  append_empty [] = refl
  append_empty (x ∷ a) = ap (◌∷◌ x) (append_empty a)

  sink-some :
      (a : Asset A) (b s : List (List A)) (r : List (List A))
      → a.buffer ≡ some b
      → append_channels b s ≡ done r
      → sink (some s) a ≡ done (record a { buffer = some r })
  unfolding sink append
  sink-some a b s r eb e = rw (eb, e) refl

  sink-none :
      (a : Asset A) (s : List (List A))
      → a.buffer ≡ none
      → sink (some s) a ≡ done (record a { buffer = some s })
  unfolding sink
  sink-none a s eb = rw (eb, append-none s) refl

  sink_all-some :
      (nc : ℕ) (bs : List (List (List A))) (a : Asset A) (b : List (List A))
      → a.buffer ≡ some b
      → length b ≡ nc
      → All (λ s. length s ≡ nc) bs
      → (r : List (List A)) × (sink_all (map some bs) a ≡ done (record a { buffer = some r }))
        × (length r ≡ nc)
        × ((i : ℕ) → channel i r ≡ channel i b ++ channel_of_all i bs)
  unfolding sink_all
  sink_all-some nc [] a b eb l h =
      (b, ap (λ x. done (record a { buffer = x })) eb, l, λ i. append_empty (channel i b))
  sink_all-some nc (s ∷ bs) a b eb l h =
      let (r, e, k) = append_channels_total b s (omega (arith, l, h.0)) in
      let step = sink-some a b s r eb e in
      let (r', e', l', c') =
        sink_all-some nc bs (record a { buffer = some r }) r refl (k ∙ l) h.1 in
      (
        r',
        rw step e',
        l',
        λ i.
            c' i
            ∙ rw (append_channels-channel b s i (h.0 ∙ sym l) e)
                (append_assoc (channel i b) (channel i s) (channel_of_all i bs)),
      )

  -- A new asset takes at least one buffer, all of as many channels, without a panic, and then has
  -- that many channels, each of them the samples of that channel of all buffers in their order. It
  -- can be reset once: the first reset returns no error and leaves it as it is for the sink, and
  -- the second one returns the error of reuse.
  pub new_asset-sink_all :
      (nc : ℕ) (uid : String) (b : List (List A)) (bs : List (List (List A)))
      → All (λ s. length s ≡ nc) (b ∷ bs)
      → let a = (reset (new_asset uid)).0 in
        ((reset (new_asset {A = A} uid)).1 ≡ none)
        × (r : List (List A)) × (sink_all (map some (b ∷ bs)) a
            ≡ done (record a { buffer = some r }))
        × (length r ≡ nc)
        × ((i : ℕ) → channel i r ≡ channel_of_all i (b ∷ bs))
        × ((reset (record a { buffer = some r })).1 ≡ some single_use_reused)
  unfolding sink_all new_asset reset single_use
  new_asset-sink_all nc uid b bs h =
      let a = (reset (new_asset {A = A} uid)).0 in
      let (r, e, l, c) = sink_all-some nc bs (record a { buffer = some b }) b refl h.0 h.1 in
      (refl, r, rw (sink-none a b refl) e, l, c, refl)
