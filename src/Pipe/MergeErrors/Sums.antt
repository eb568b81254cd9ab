-- ===== src/Pipe/MergeErrors/Sums.antt =====
-- pipe/pipe.go: `mergeErrors`, numbers of errors and of goroutines.
use phono.Base.{
  ℕ, zero, suc, ◌+◌, ◌≤◌, ◌≡◌, refl, sym, ap, List, [], ◌∷◌, ◌++◌, some, length, get_elem?, set,
  replicate, ◌==◌, ◌≢◌, ◌⊎◌, inl, inr, Bool-cases, if◌then◌else◌, arith, some-injective,
}
use phono.Pipe.MergeErrors.{Phase, reading, sending, returned}

abbrev pub sum_by : {O : Type 0} → (O → ℕ) → List O → ℕ
sum_by f [] = 0
sum_by f (o ∷ os) = f o + sum_by f os

pub sum_by-set :
    {O : Type 0} (f : O → ℕ) (os : List O) (i : ℕ) (o o' : O)
    → get_elem? os i ≡ some o
    → sum_by f (set os i o') + f o ≡ sum_by f os + f o'
sum_by-set f [] i o o' is = cc
sum_by-set f (x ∷ os) zero o o' is = let same : f x ≡ f o = ap f (some-injective is) in omega arith
sum_by-set f (x ∷ os) (suc i) o o' is = omega (arith, sum_by-set f os i o o' is)

pub sum_by-ones : {O : Type 0} (f : O → ℕ) (n : ℕ) (o : O) → f o ≡ 1 → sum_by f (replicate n o) ≡ n
sum_by-ones f zero o is = refl
sum_by-ones f (suc n) o is = omega (arith, sum_by-ones f n o is, is)

pub sum_by-zeros : {O : Type 0} (f : O → ℕ) (n : ℕ) (o : O) → f o ≡ 0 → sum_by f (replicate n o) ≡ 0
sum_by-zeros f zero o is = refl
sum_by-zeros f (suc n) o is = omega (arith, sum_by-zeros f n o is, is)

pub sum_by_le :
    {O : Type 0} (f : O → ℕ) (os : List O)
    → ((i : ℕ) (o : O) → get_elem? os i ≡ some o → f o ≤ 1)
    → sum_by f os ≤ length os
sum_by_le f [] small = omega arith
sum_by_le f (o ∷ os) small =
    omega (arith, small 0 o refl, sum_by_le f os (λ i o' is. small (suc i) o' is))

pub sum_by_get :
    {O : Type 0} (f : O → ℕ) (os : List O) (i : ℕ) (o : O)
    → get_elem? os i ≡ some o
    → f o ≤ sum_by f os
sum_by_get f [] i o is = cc
sum_by_get f (x ∷ os) zero o is = let same : f x ≡ f o = ap f (some-injective is) in omega arith
sum_by_get f (x ∷ os) (suc i) o is = omega (arith, sum_by_get f os i o is)

pub sum_by_none :
    {O : Type 0} (f : O → ℕ) (os : List O)
    → sum_by f os ≡ 0
    → (i : ℕ) (o : O) → get_elem? os i ≡ some o
    → f o ≡ 0
sum_by_none f os none_left i o is = omega (arith, sum_by_get f os i o is)

pub get_elem?-replicate :
    {O : Type 0} (n i : ℕ) (o o' : O) → get_elem? (replicate n o) i ≡ some o' → o' ≡ o
get_elem?-replicate zero i o o' is = cc
get_elem?-replicate (suc n) zero o o' is = sym (some-injective is)
get_elem?-replicate (suc n) (suc i) o o' is = get_elem?-replicate n i o o' is

-- An element of a list in which one was set.
pub get_elem?-set :
    {O : Type 0} (os : List O) (i j : ℕ) (x o : O)
    → get_elem? (set os i x) j ≡ some o
    → ((i ≡ j) × (o ≡ x)) ⊎ ((i ≢ j) × (get_elem? os j ≡ some o))
get_elem?-set [] i j x o is = cc
get_elem?-set (y ∷ os) zero zero x o is = inl (refl, sym (some-injective is))
get_elem?-set (y ∷ os) zero (suc j) x o is = inr (λ same. absurd (omega arith), is)
get_elem?-set (y ∷ os) (suc i) zero x o is = inr (λ same. absurd (omega arith), is)
get_elem?-set (y ∷ os) (suc i) (suc j) x o is = elim (get_elem?-set os i j x o is) [
  | inl (at, same) ↦ inl (ap suc at, same)
  | inr (off, found) ↦ inr (λ same. off (omega arith), found)
]

module _ {E : Type 0} where
  -- The errors that a call of `output` has yet to send.
  abbrev pub held : Phase E → List E
  held reading = []
  held (sending e) = e ∷ []
  held returned = []

  abbrev pub count_running : Phase E → ℕ
  count_running reading = 1
  count_running (sending e) = 1
  count_running returned = 0

  -- The errors of one channel among those sent.
  abbrev pub of : ℕ → List (ℕ × E) → List E
  of i [] = []
  of i ((j, e) ∷ l) = if j == i then e ∷ of i l else of i l

  pub of_self : (i : ℕ) (e : E) (l : List (ℕ × E)) → of i (l ++ (i, e) ∷ []) ≡ of i l ++ e ∷ []
  of_self i e [] = ground arith
  of_self i e ((k, x) ∷ l) = elim (Bool-cases (k == i)) [
    | inl same ↦ rw same (ap (◌∷◌ x) (of_self i e l))
    | inr other ↦ rw other (of_self i e l)
  ]

  pub of_other : (i j : ℕ) (e : E) (l : List (ℕ × E)) → i ≢ j → of j (l ++ (i, e) ∷ []) ≡ of j l
  of_other i j e [] off = ground (arith, off)
  of_other i j e ((k, x) ∷ l) off = elim (Bool-cases (k == j)) [
    | inl same ↦ rw same (ap (◌∷◌ x) (of_other i j e l off))
    | inr other ↦ rw other (of_other i j e l off)
  ]
