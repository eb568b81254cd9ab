-- ===== src/Tests/MixerTests.antt =====
-- mixer/mixer.go: two stereo buffers, the second one shorter.
use phono.Base.{ℕ, zero, suc, ◌+◌, ◌<◌, ◌≡◌, refl, List, [], ◌∷◌, some, map, length, arith}
use phono.Base.Outcome.{done}
use phono.Mixer.{sum}
use phono.Mixer.Mixing.{Leads, AllFrom, IsMixed, sum-mean}

abbrev buffers : List (List (List ℕ))
buffers = ((1 ∷ 2 ∷ []) ∷ (3 ∷ 4 ∷ []) ∷ []) ∷ ((5 ∷ []) ∷ (6 ∷ []) ∷ []) ∷ []

-- What is added up for every sample.
abbrev samples : ℕ → ℕ → List ℕ
samples zero zero = 1 ∷ 5 ∷ []
samples zero (suc s) = 2 ∷ []
samples (suc c) zero = 3 ∷ 6 ∷ []
samples (suc c) (suc s) = 4 ∷ []

abbrev quotient : ℕ → ℕ → ℕ
quotient a b = a

samples-Leads : (c s : ℕ) → c < 2 → s < 2 → Leads c s buffers (samples c s)
samples-Leads zero zero hc hs = ((1 ∷ 2 ∷ [], refl, refl), ((5 ∷ [], refl, refl), refl))
samples-Leads zero (suc zero) hc hs = ((1 ∷ 2 ∷ [], refl, refl), (5 ∷ [], refl, refl))
samples-Leads zero (suc (suc s)) hc hs = absurd (omega arith)
samples-Leads (suc zero) zero hc hs = ((3 ∷ 4 ∷ [], refl, refl), ((6 ∷ [], refl, refl), refl))
samples-Leads (suc zero) (suc zero) hc hs = ((3 ∷ 4 ∷ [], refl, refl), (6 ∷ [], refl, refl))
samples-Leads (suc zero) (suc (suc s)) hc hs = absurd (omega arith)
samples-Leads (suc (suc c)) s hc hs = absurd (omega arith)

sum-mean_example :
    (r : List (List ℕ)) × (sum ◌+◌ quotient suc 0 2 2 (map some buffers) ≡ done (some r, []))
    × (length r ≡ 2)
    × AllFrom (IsMixed ◌+◌ quotient suc 0 2 samples) 0 2 r
sum-mean_example = sum-mean ◌+◌ quotient suc 0 2 2 buffers samples samples-Leads
