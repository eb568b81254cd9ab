-- ===== src/Pipe/MergeErrors/Stepping.antt =====
-- pipe/pipe.go: `mergeErrors`, an invariant of its goroutines that every event keeps.
use phono.Base.{
  ℕ, suc, ◌+◌, ◌-◌, ◌≤◌, ◌≡◌, refl, sym, ap, ◌∙◌, true, false, List, [], ◌∷◌, ◌++◌, Option, none,
  some, length, length-append, append_nil, get_elem?, set, length-set, length-replicate, ltb, ◌==◌,
  arith, Bool-cases, inl, inr,
}
use phono.Base.Outcome.{Outcome, done}
use phono.Pipe.MergeErrors.{
  Phase, reading, sending, returned, Output, Merge, Event, received, input_closed, delivered,
  taken_out, waited, merge_errors, receive, finish, deliver, close_out, at_output, step, run,
}
use phono.Pipe.MergeErrors.Sums.{
  sum_by, sum_by-set, sum_by-ones, sum_by-zeros, sum_by_get, get_elem?-replicate, get_elem?-set,
  held, count_running, of, of_self, of_other,
}

module _ {E : Type 0} where
  abbrev pub running : Output E → ℕ
  running o = count_running o.phase

  abbrev pub holding : Output E → ℕ
  holding o = length (held o.phase)

  abbrev pub gotten : Output E → ℕ
  gotten o = length o.got

  pub record IsMerging (n : ℕ) (m : Merge E) : Type 0 where
    pub each :
        (i : ℕ) (o : Output E)
        → get_elem? m.outputs i ≡ some o
        → o.got ≡ of i m.sent ++ held o.phase
    pub waits : m.waiting ≡ sum_by running m.outputs
    pub ends : m.closed ≡ true → m.waiting ≡ 0
    pub total : sum_by gotten m.outputs ≡ length m.sent + sum_by holding m.outputs
    pub size : length m.outputs ≡ n
    pub room : m.capacity ≡ n
    pub within : m.taken ≤ length m.sent

  pub merge_errors-IsMerging : (n : ℕ) → IsMerging n (merge_errors {E = E} n)
  unfolding merge_errors
  merge_errors-IsMerging n =
      let start : Output E = record { phase = reading; got = [] } in
      record {
        each = λ i o is. let same = get_elem?-replicate n i start o is in rw same refl;
        waits = sym (sum_by-ones running n start refl);
        ends = λ is. cc;
        total = omega (arith, sum_by-zeros gotten n start refl, sum_by-zeros holding n start refl);
        size = length-replicate n start;
        room = refl;
        within = omega arith;
      }

  -- A call of `output` that goes on without a send.
  each-set :
      (m : Merge E) (i : ℕ) (o' : Output E)
      → ((j : ℕ) (o : Output E)
          → get_elem? m.outputs j ≡ some o
          → o.got ≡ of j m.sent ++ held o.phase)
      → o'.got ≡ of i m.sent ++ held o'.phase
      → (j : ℕ) (o : Output E) → get_elem? (set m.outputs i o') j ≡ some o
      → o.got ≡ of j m.sent ++ held o.phase
  each-set m i o' each now j o is = elim (get_elem?-set m.outputs i j o' o is) [
    | inl (at, same) ↦ rw (same, ← at) now
    | inr (off, found) ↦ each j o found
  ]

  receive-IsMerging :
      (n i : ℕ) (e : E) (o : Output E) (p : Phase E) (m : Merge E)
      → get_elem? m.outputs i ≡ some o
      → o.phase ≡ p
      → IsMerging n m
      → IsMerging n (receive i e o p m)
  unfolding receive
  receive-IsMerging n i e o reading m found at h =
      let o' : Output E = record { phase = sending e; got = o.got ++ e ∷ [] } in
      let empty : holding o ≡ 0 = ap (λ p. length (held p)) at in
      let one : running o ≡ 1 = ap count_running at in
      record {
        each = each-set m i o' h.each (
            ap (λ l. l ++ e ∷ [])
              (h.each i o found ∙ ap (λ p. of i m.sent ++ held p) at ∙ append_nil (of i m.sent)));
        waits = omega (arith, h.waits, sum_by-set running m.outputs i o o' found, one);
        ends = h.ends;
        total = omega (
          arith,
          h.total,
          sum_by-set gotten m.outputs i o o' found,
          sum_by-set holding m.outputs i o o' found,
          empty,
          length-append o.got (e ∷ []),
        );
        size = length-set m.outputs i o' ∙ h.size;
        room = h.room;
        within = h.within;
      }
  receive-IsMerging n i e o (sending x) m found at h = h
  receive-IsMerging n i e o returned m found at h = h

  finish-IsMerging :
      (n i : ℕ) (o : Output E) (p : Phase E) (m : Merge E)
      → get_elem? m.outputs i ≡ some o
      → o.phase ≡ p
      → IsMerging n m
      → (m' : Merge E) × (finish i o p m ≡ done m') × IsMerging n m'
  unfolding finish
  finish-IsMerging n i o reading m found at h =
      let o' : Output E = record o { phase = returned } in
      let empty : holding o ≡ 0 = ap (λ p. length (held p)) at in
      let one : running o ≡ 1 = ap count_running at in
      let some_left : (m.waiting == 0) ≡ false =
        ground (arith, h.waits, sum_by_get running m.outputs i o found, one) in
      (
        record m { outputs = set m.outputs i o'; waiting = m.waiting - 1 },
        rw some_left refl,
        record {
          each = each-set m i o' h.each (h.each i o found ∙ ap (λ p. of i m.sent ++ held p) at);
          waits = omega (arith, h.waits, sum_by-set running m.outputs i o o' found, one);
          ends = λ is. omega (arith, h.ends is);
          total = omega (
            arith,
            h.total,
            sum_by-set gotten m.outputs i o o' found,
            sum_by-set holding m.outputs i o o' found,
            empty,
          );
          size = length-set m.outputs i o' ∙ h.size;
          room = h.room;
          within = h.within;
        },
      )
  finish-IsMerging n i o (sending x) m found at h = (m, refl, h)
  finish-IsMerging n i o returned m found at h = (m, refl, h)

  deliver-IsMerging :
      (n i : ℕ) (o : Output E) (p : Phase E) (m : Merge E)
      → get_elem? m.outputs i ≡ some o
      → o.phase ≡ p
      → IsMerging n m
      → (m' : Merge E) × (deliver i o p m ≡ done m') × IsMerging n m'
  unfolding deliver
  deliver-IsMerging n i o reading m found at h = (m, refl, h)
  deliver-IsMerging n i o returned m found at h = (m, refl, h)
  deliver-IsMerging n i o (sending e) m found at h =
      let o' : Output E = record o { phase = reading } in
      let one : holding o ≡ 1 = ap (λ p. length (held p)) at in
      let alive : running o ≡ 1 = ap count_running at in
      let live : m.closed ≡ false = elim (Bool-cases m.closed) [
        | inl shut ↦
            absurd
              (omega (arith, h.ends shut, h.waits, sum_by_get running m.outputs i o found, alive))
        | inr live ↦ live
      ] in
      elim (Bool-cases (ltb (length m.sent) (m.taken + m.capacity))) [
        | inr full ↦ (m, rw (live, full) refl, h)
        | inl free ↦ (
          record m { outputs = set m.outputs i o'; sent = m.sent ++ (i, e) ∷ [] },
          rw (live, free) refl,
          record {
            each = λ j x is. elim (get_elem?-set m.outputs i j o' x is) [
              | inl (same, here) ↦
                  rw (here, ← same)
                    (h.each i o found
                      ∙ ap (λ p. of i m.sent ++ held p) at
                      ∙ sym (of_self i e m.sent)
                      ∙ sym (append_nil (of i (m.sent ++ (i, e) ∷ []))))
              | inr (off, there) ↦
                  h.each j x there ∙ ap (λ l. l ++ held x.phase) (sym (of_other i j e m.sent off))
            ];
            waits = omega (arith, h.waits, sum_by-set running m.outputs i o o' found, alive);
            ends = h.ends;
            total = omega (
              arith,
              h.total,
              sum_by-set gotten m.outputs i o o' found,
              sum_by-set holding m.outputs i o o' found,
              one,
              length-append m.sent ((i, e) ∷ []),
            );
            size = length-set m.outputs i o' ∙ h.size;
            room = h.room;
            within = omega (arith, h.within, length-append m.sent ((i, e) ∷ []));
          },
        )
      ]

  at_output_lem :
      (n i : ℕ) (f : Output E → Merge E → Outcome (Merge E)) (m : Merge E) (q : Option (Output E))
      → get_elem? m.outputs i ≡ q
      → IsMerging n m
      → ((o : Output E)
          → get_elem? m.outputs i ≡ some o
          → (m' : Merge E) × (f o m ≡ done m') × IsMerging n m')
      → (m' : Merge E) × (at_output f q m ≡ done m') × IsMerging n m'
  unfolding at_output
  at_output_lem n i f m none found h goes = (m, refl, h)
  at_output_lem n i f m (some o) found h goes = goes o found

  step-IsMerging :
      (n : ℕ) (m : Merge E) (e : Event E)
      → IsMerging n m
      → (m' : Merge E) × (step m e ≡ done m') × IsMerging n m'
  unfolding step close_out
  step-IsMerging n m (received i e) h =
      at_output_lem n i (λ o m. done (receive i e o o.phase m)) m (get_elem? m.outputs i) refl h
        (λ o found.
          (receive i e o o.phase m, refl, receive-IsMerging n i e o o.phase m found refl h))
  step-IsMerging n m (input_closed i) h =
      at_output_lem n i (λ o m. finish i o o.phase m) m (get_elem? m.outputs i) refl h
        (λ o found. finish-IsMerging n i o o.phase m found refl h)
  step-IsMerging n m (delivered i) h =
      at_output_lem n i (λ o m. deliver i o o.phase m) m (get_elem? m.outputs i) refl h
        (λ o found. deliver-IsMerging n i o o.phase m found refl h)
  step-IsMerging n m taken_out h = elim (Bool-cases (ltb m.taken (length m.sent))) [
    | inl more ↦ (
      record m { taken = suc m.taken },
      rw more refl,
      record {
        each = h.each;
        waits = h.waits;
        ends = h.ends;
        total = h.total;
        size = h.size;
        room = h.room;
        within = ground arith;
      },
    )
    | inr empty ↦ (m, rw empty refl, h)
  ]
  step-IsMerging n m waited h = elim (Bool-cases (m.waiting == 0)) [
    | inl over ↦ (
      record m { closed = true },
      rw over refl,
      record {
        each = h.each;
        waits = h.waits;
        ends = λ is. ground arith;
        total = h.total;
        size = h.size;
        room = h.room;
        within = h.within;
      },
    )
    | inr going ↦ (m, rw going refl, h)
  ]

  pub run_lem :
      (n : ℕ) (m : Merge E) (es : List (Event E))
      → IsMerging n m
      → (m' : Merge E) × (run m es ≡ done m') × IsMerging n m'
  unfolding run
  run_lem n m [] h = (m, refl, h)
  run_lem n m (e ∷ es) h =
      let (m1, first, h1) = step-IsMerging n m e h in
      let (m2, rest, h2) = run_lem n m1 es h1 in (m2, rw first rest, h2)
