-- ===== src/Mixer/Mix/Waiting.antt =====
-- mixer/mixer.go: counting the inputs that have not come to a frame yet. `live` has the inputs that
-- have not ended, each with the number of its next frame.
use text.Mathlib.TextEquality.{eq_iff}
use phono.Base.{
  ℕ, suc, ◌+◌, ◌≤◌, ◌<◌, ◌≡◌, refl, List, [], ◌∷◌, none, some, String, length, All, leb, ◌==◌,
  if◌then◌else◌, arith,
}
use phono.Base.Dict.{lookup, insert, delete, IsMap}

abbrev pub Live : Type 0
Live = List (String × ℕ)

-- How many of them still have to come to frame k.
abbrev pub waiting : ℕ → Live → ℕ
waiting k [] = 0
waiting k ((id, c) ∷ live) = (if leb c k then 1 else 0) + waiting k live

-- All of them stand at a frame below n.
abbrev pub IsBelow : ℕ → Live → Type 0
IsBelow n = All (λ e. e.1 < n)

pub waiting-le : (k : ℕ) (live : Live) → waiting k live ≤ length live
waiting-le k [] = omega arith
waiting-le k ((id, c) ∷ live) = ground (arith, waiting-le k live)

pub waiting_mono : (j k : ℕ) (live : Live) → j ≤ k → waiting j live ≤ waiting k live
waiting_mono j k [] h = omega arith
waiting_mono j k ((id, c) ∷ live) h = ground (arith, waiting_mono j k live h)

pub waiting-IsBelow : (k : ℕ) (live : Live) → IsBelow (suc k) live → waiting k live ≡ length live
waiting-IsBelow k [] h = refl
waiting-IsBelow k ((id, c) ∷ live) h = ground (arith, waiting-IsBelow k live h.1)

pub waiting-lookup :
    (k c : ℕ) (id : String) (live : Live) → lookup id live ≡ some c → c ≤ k → 1 ≤ waiting k live
unfolding lookup
waiting-lookup k c id [] h le = cc
waiting-lookup k c id ((other, d) ∷ live) h le =
    ground (arith, waiting-lookup k c id live, eq_iff other id)

-- An input goes on to the next frame.
pub waiting-insert :
    (k c : ℕ) (id : String) (live : Live)
    → lookup id live ≡ some c
    → waiting k (insert id (suc c) live) + (if k == c then 1 else 0) ≡ waiting k live
unfolding lookup insert
waiting-insert k c id [] h = cc
waiting-insert k c id ((other, d) ∷ live) h =
    ground (arith, waiting-insert k c id live, eq_iff other id)

pub length-insert :
    {V : Type 0} (c d : V) (id : String) (live : List (String × V))
    → lookup id live ≡ some c
    → length (insert id d live) ≡ length live
unfolding lookup insert
length-insert c d id [] h = cc
length-insert c d id ((other, e) ∷ live) h =
    ground (arith, length-insert c d id live, eq_iff other id)

delete_absent :
    {V : Type 0} (id : String) (live : List (String × V))
    → lookup id live ≡ none
    → delete id live ≡ live
unfolding lookup delete
delete_absent id [] h = refl
delete_absent id ((other, d) ∷ live) h = ground (arith, delete_absent id live, eq_iff other id)

-- An input ends.
pub waiting-delete :
    (k c : ℕ) (id : String) (live : Live)
    → IsMap live
    → lookup id live ≡ some c
    → waiting k (delete id live) + (if leb c k then 1 else 0) ≡ waiting k live
unfolding lookup delete
waiting-delete k c id [] m h = cc
waiting-delete k c id ((other, d) ∷ live) m h =
    ground (arith, waiting-delete k c id live m.1, delete_absent id live, eq_iff other id)

pub length-delete :
    (c : ℕ) (id : String) (live : Live)
    → IsMap live
    → lookup id live ≡ some c
    → suc (length (delete id live)) ≡ length live
unfolding lookup delete
length-delete c id [] m h = cc
length-delete c id ((other, d) ∷ live) m h =
    ground (arith, length-delete c id live m.1, delete_absent id live, eq_iff other id)

pub insert-IsBelow :
    (n c : ℕ) (id : String) (live : Live) → c < n → IsBelow n live → IsBelow n (insert id c live)
unfolding insert
insert-IsBelow n c id [] lt h = (lt, tt)
insert-IsBelow n c id ((other, d) ∷ live) lt h = ground (arith, insert-IsBelow n c id live lt h.1)

pub delete-IsBelow :
    (n : ℕ) (id : String) (live : Live) → IsBelow n live → IsBelow n (delete id live)
unfolding delete
delete-IsBelow n id [] h = tt
delete-IsBelow n id ((other, d) ∷ live) h = ground (arith, delete-IsBelow n id live h.1)

pub lookup-IsBelow :
    (n c : ℕ) (id : String) (live : Live) → IsBelow n live → lookup id live ≡ some c → c < n
unfolding lookup
lookup-IsBelow n c id [] h e = cc
lookup-IsBelow n c id ((other, d) ∷ live) h e =
    ground (arith, lookup-IsBelow n c id live h.1, eq_iff other id)
