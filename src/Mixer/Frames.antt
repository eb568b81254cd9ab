-- ===== src/Mixer/Frames.antt =====
-- mixer/mixer.go: `frame`, and the functions that follow the frames' `next` pointers. The frames are in
-- a store and a pointer is a number in it; `none` is nil. The loops have fuel, and `blocked` is its
-- end.

use phono.Base.{
  ℕ, zero, suc, Bool, ◌&&◌, List, [], ◌∷◌, ◌++◌, Option, none, some, length, get_elem?, set, ltb,
  ◌==◌, if◌then◌else◌,
}
use phono.Base.Outcome.{Outcome, done, panic, blocked, ◌>>=◌}
use phono.Buffer.{Buffer}

pub record Frame (A : Type 0) : Type 0 where
  pub buffers : List (Buffer A)
  pub expected : ℕ
  pub next : Option ℕ

module _ {A : Type 0} where
  -- `newFrame`
  abbrev pub new_frame : ℕ → Frame A
  new_frame n = record { buffers = []; expected = n; next = none }

  -- `isComplete`
  abbrev pub is_complete : Frame A → Bool
  is_complete f = ltb 0 f.expected && f.expected == length f.buffers

  -- `*f`, a panic for nil.
  abbrev pub or_panic : Option (Frame A) → Outcome (Frame A)
  or_panic none = panic
  or_panic (some f) = done f

  unfoldable pub deref : Option ℕ → List (Frame A) → Outcome (Frame A)
  deref none heap = panic
  deref (some p) heap = or_panic (get_elem? heap p)

  -- What `send` does when it waits: `cut` is the number of frames after which `cancel` is closed
  -- instead; with `none` that does not happen.
  abbrev pub offer :
      (Option ℕ → Outcome (Option ℕ × List (List (Buffer A))))
      → Option ℕ
      → List (List (Buffer A))
      → Outcome (Option ℕ × List (List (Buffer A)))
  offer rest none out = rest none
  offer rest (some zero) out = done (none, out)
  offer rest (some (suc n)) out = rest (some n)

  -- `send`, with the buffers of the frames sent on `out`.
  unfoldable pub send :
      ℕ
      → Option ℕ
      → Option ℕ
      → List (Frame A)
      → List (List (Buffer A))
      → Outcome (Option ℕ × List (List (Buffer A)))
  send zero cut p heap out = blocked
  send (suc fuel) cut none heap out = done (none, out)
  send (suc fuel) cut (some p) heap out = do
    f ← deref (some p) heap
    let rest = offer (λ left. send fuel left f.next heap (out ++ f.buffers ∷ [])) cut out
    if is_complete f then rest else done (some p, out)

  -- `resetExpectations`
  unfoldable pub reset_expectations : ℕ → Option ℕ → ℕ → List (Frame A) → Outcome (List (Frame A))
  reset_expectations zero f e heap = blocked
  reset_expectations (suc fuel) none e heap = done heap
  reset_expectations (suc fuel) (some p) e heap = do
    f ← deref (some p) heap
    reset_expectations fuel f.next e (set heap p (record f { expected = e }))
