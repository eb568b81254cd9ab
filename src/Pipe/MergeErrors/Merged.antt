-- ===== src/Pipe/MergeErrors/Merged.antt =====
-- pipe/pipe.go: `mergeErrors`, whatever the order in which its goroutines go on.
use mathlib.Core.Path.{subst}
use phono.Base.{
  ℕ, ◌+◌, ◌≤◌, ◌<◌, ◌≡◌, refl, sym, ap, ◌∙◌, true, false, List, [], ◌∷◌, ◌++◌, some, length,
  append_nil, get_elem?, get_elem?-lt, set, ltb, arith, Bool-cases, inl, inr,
}
use phono.Base.Outcome.{done, done-injective}
use phono.Pipe.MergeErrors.{
  Phase, reading, sending, returned, Output, Merge, Event, delivered, merge_errors, deliver,
  at_output, step, run,
}
use phono.Pipe.MergeErrors.Sums.{sum_by_le, sum_by_get, sum_by_none, held, count_running, of}
use phono.Pipe.MergeErrors.Stepping.{
  running, holding, gotten, IsMerging, merge_errors-IsMerging, run_lem,
}

module _ {E : Type 0} where
  is_returned : (p : Phase E) → count_running p ≡ 0 → p ≡ returned
  is_returned reading none_left = absurd (omega arith)
  is_returned (sending e) none_left = absurd (omega arith)
  is_returned returned none_left = refl

  run-IsMerging :
      (n : ℕ) (es : List (Event E)) (m : Merge E) → run (merge_errors n) es ≡ done m → IsMerging n m
  run-IsMerging n es m runs =
      let (m1, runs1, h1) = run_lem n (merge_errors n) es (merge_errors-IsMerging n) in
      subst (IsMerging n) (done-injective (sym runs1 ∙ runs)) h1

  -- Whatever the order in which the goroutines of `mergeErrors` go on, none of them panics: nothing is
  -- sent on `errc` behind its end, and the wait group does not go below zero. What a goroutine has
  -- received from its error channel is what it has sent, in that order, and the error that it is
  -- sending, if there is one.
  pub run-merge_errors :
      (n : ℕ) (es : List (Event E)) (i : ℕ)
      → i < n
      → (m : Merge E) × (o : Output E) × (run (merge_errors n) es ≡ done m)
        × (get_elem? m.outputs i ≡ some o)
        × (o.got ≡ of i m.sent ++ held o.phase)
  run-merge_errors n es i inside =
      let (m, runs, h) = run_lem n (merge_errors n) es (merge_errors-IsMerging n) in
      let (o, found) = get_elem?-lt m.outputs i (omega (arith, h.size, inside)) in
      (m, o, runs, found, h.each i o found)

  -- When `errc` is closed, every goroutine of `mergeErrors` has returned and has sent all the errors that
  -- it has received.
  pub closed-merge_errors :
      (n : ℕ) (es : List (Event E)) (m : Merge E) (i : ℕ) (o : Output E)
      → run (merge_errors n) es ≡ done m
      → m.closed ≡ true
      → get_elem? m.outputs i ≡ some o
      → (o.phase ≡ returned) × (o.got ≡ of i m.sent)
  closed-merge_errors n es m i o runs shut found =
      let h = run-IsMerging n es m runs in
      let p : o.phase ≡ returned =
        is_returned o.phase
          (sum_by_none running m.outputs (omega (arith, h.ends shut, h.waits)) i o found) in
      (p, h.each i o found ∙ ap (λ p. of i m.sent ++ held p) p ∙ append_nil (of i m.sent))

  -- As long as no error channel has given more than one error, a goroutine of `mergeErrors` that has an
  -- error sends it on `errc` at once, also if nobody receives from it.
  pub deliver-free :
      (n : ℕ) (es : List (Event E)) (m : Merge E) (i : ℕ) (o : Output E) (e : E)
      → run (merge_errors n) es ≡ done m
      → ((j : ℕ) (x : Output E) → get_elem? m.outputs j ≡ some x → length x.got ≤ 1)
      → get_elem? m.outputs i ≡ some o
      → o.phase ≡ sending e
      → (m' : Merge E) × (step m (delivered i) ≡ done m') × (m'.sent ≡ m.sent ++ (i, e) ∷ [])
  unfolding step at_output deliver
  deliver-free n es m i o e runs one found at =
      let h = run-IsMerging n es m runs in
      let holds : holding o ≡ 1 = ap (λ p. length (held p)) at in
      let alive : running o ≡ 1 = ap count_running at in
      let live : m.closed ≡ false = elim (Bool-cases m.closed) [
        | inl shut ↦
            absurd
              (omega (arith, h.ends shut, h.waits, sum_by_get running m.outputs i o found, alive))
        | inr live ↦ live
      ] in
      let free : ltb (length m.sent) (m.taken + m.capacity) ≡ true = ground (
        arith,
        h.total,
        sum_by_le gotten m.outputs one,
        sum_by_get holding m.outputs i o found,
        holds,
        h.size,
        h.room,
      ) in
      (
        record m {
          outputs = set m.outputs i (record o { phase = reading });
          sent = m.sent ++ (i, e) ∷ [];
        },
        rw found (ap (λ p. deliver i o p m) at ∙ rw (live, free) refl),
        refl,
      )
