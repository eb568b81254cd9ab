-- ===== src/Pipe/Broadcast/Getting.antt =====
-- pipe/pipe.go: what a sink has got of the goroutine of `broadcastToSinks`, event by event.
use mathlib.Core.Path.{subst}
use mathlib.Core.List.{append_assoc, map-append}
use phono.Base.{
  ℕ, suc, ◌+◌, ◌≤◌, ◌≡◌, ◌≢◌, refl, sym, ap, ap₂, ◌∙◌, map, List, [], ◌∷◌, ◌++◌, append_nil, Option,
  none, some, String, length, get_elem?, lt_of_get_elem?, get_elem?-lt, ◌==◌, ltb, if◌then◌else◌,
  arith, true, false, Bool-cases, inl, inr, some-injective,
}
use phono.Pipe.Message.{Message}
use phono.Pipe.Broadcast.{sink_message}
use phono.Pipe.Broadcast.Sending.{
  Phase, reading, offering, returned, Broadcast, Event, received, input_closed, accepted, cancelled,
  offer, in_phase, step, run,
}
use phono.Pipe.MergeErrors.Sums.{of, of_self, of_other}

module _ {A C : Type 0} where
  -- The messages that the goroutine receives: those that come when it waits for one.
  abbrev pub taken_of : Phase A C → Event A C → List (Message A C)
  taken_of reading (received msg) = msg ∷ []
  taken_of p e = []

  unfoldable pub taken : List String → Broadcast A C → List (Event A C) → List (Message A C)
  taken sinks b [] = []
  taken sinks b (e ∷ es) = taken_of b.phase e ++ taken sinks (step sinks b e) es

  -- How often the pipe is cancelled in these events.
  abbrev cut : Event A C → ℕ
  cut cancelled = 1
  cut (received msg) = 0
  cut input_closed = 0
  cut accepted = 0

  abbrev pub cuts : List (Event A C) → ℕ
  cuts [] = 0
  cuts (e ∷ es) = cut e + cuts es

  -- The messages for one sink.
  abbrev pub for_sink : String → List (Message A C) → List (Message A C)
  for_sink id msgs = map (λ m. sink_message m id) msgs

  -- What one sink has got of the messages that were received.
  abbrev pub Got : Phase A C → List (Message A C) → ℕ → ℕ → String → List (Message A C) → Type 0
  Got reading msgs k i id l = l ≡ for_sink id msgs
  Got (offering msg j x) msgs k i id l =
      (old : List (Message A C)) × (msgs ≡ old ++ msg ∷ [])
      × (l ≡ for_sink id (if ltb i j then msgs else old))
  Got returned msgs k i id l =
      (old : List (Message A C)) × (rest : List (Message A C)) × (msgs ≡ old ++ rest)
      × (length rest ≤ 1)
      × (length rest ≤ k)
      × (l ≡ for_sink id old)

  -- The sink that the message is for has the number that the loop is at.
  abbrev AtSink : List String → Phase A C → Type 0
  AtSink sinks reading = Unit {0}
  AtSink sinks (offering msg j x) = get_elem? sinks j ≡ some x
  AtSink sinks returned = Unit {0}

  offer_lem :
      (sinks : List String) (msgs old : List (Message A C)) (msg : Message A C) (k j i : ℕ)
      (q : Option String) (id : String) (l : List (Message A C))
      → get_elem? sinks j ≡ q
      → get_elem? sinks i ≡ some id
      → msgs ≡ old ++ msg ∷ []
      → l ≡ for_sink id (if ltb i j then msgs else old)
      → Got (offer msg j q) msgs k i id l
  offer_lem sinks msgs old msg k j i none id l none_there there parts got =
      let before : ltb i j ≡ true = elim (Bool-cases (ltb i j)) [
        | inl before ↦ before
        | inr behind ↦
            let (x, is) = get_elem?-lt sinks j (ground (arith, lt_of_get_elem? sinks i there)) in
            let lost : none ≡ some x = sym none_there ∙ is in cc
      ] in
      got ∙ ap (λ b. for_sink id (if b then msgs else old)) before
  offer_lem sinks msgs old msg k j i (some x) id l is there parts got = (old, parts, got)

  offer-AtSink :
      (sinks : List String) (msg : Message A C) (j : ℕ) (q : Option String)
      → get_elem? sinks j ≡ q
      → AtSink sinks (offer msg j q)
  offer-AtSink sinks msg j none is = tt
  offer-AtSink sinks msg j (some x) is = is

  in_phase-AtSink :
      (sinks : List String) (p : Phase A C) (sent : List (ℕ × Message A C)) (e : Event A C)
      → AtSink sinks p
      → AtSink sinks (in_phase sinks p e (record { phase = p; sent = sent })).phase
  unfolding in_phase
  in_phase-AtSink sinks reading sent (received msg) h =
      offer-AtSink sinks msg 0 (get_elem? sinks 0) refl
  in_phase-AtSink sinks reading sent input_closed h = tt
  in_phase-AtSink sinks reading sent accepted h = tt
  in_phase-AtSink sinks reading sent cancelled h = tt
  in_phase-AtSink sinks (offering msg j x) sent accepted h =
      offer-AtSink sinks msg (suc j) (get_elem? sinks (suc j)) refl
  in_phase-AtSink sinks (offering msg j x) sent cancelled h = tt
  in_phase-AtSink sinks (offering msg j x) sent (received m) h = h
  in_phase-AtSink sinks (offering msg j x) sent input_closed h = h
  in_phase-AtSink sinks returned sent (received m) h = tt
  in_phase-AtSink sinks returned sent input_closed h = tt
  in_phase-AtSink sinks returned sent accepted h = tt
  in_phase-AtSink sinks returned sent cancelled h = tt

  -- An event that takes no message leaves what a sink has got.
  Got-more :
      (p : Phase A C) (msgs : List (Message A C)) (k more i : ℕ) (id : String)
      (l : List (Message A C))
      → Got p msgs k i id l
      → Got p (msgs ++ []) (k + more) i id l
  Got-more reading msgs k more i id l got = got ∙ ap (for_sink id) (sym (append_nil msgs))
  Got-more (offering msg j x) msgs k more i id l (old, parts, got) = (
    old,
    append_nil msgs ∙ parts,
    got ∙ ap (λ ms. for_sink id (if ltb i j then ms else old)) (sym (append_nil msgs)),
  )
  Got-more returned msgs k more i id l (old, rest, parts, one, few, got) =
      (old, rest, append_nil msgs ∙ parts, one, omega arith, got)

  accept-Got :
      (sinks : List String) (msgs : List (Message A C)) (sent : List (ℕ × Message A C))
      (msg : Message A C) (k j i : ℕ) (x id : String)
      → get_elem? sinks j ≡ some x
      → get_elem? sinks i ≡ some id
      → Got (offering msg j x) msgs k i id (of i sent)
      → Got
          (offer msg (suc j) (get_elem? sinks (suc j)))
          msgs
          k
          i
          id
          (of i (sent ++ (j, sink_message msg x) ∷ []))
  accept-Got sinks msgs sent msg k j i x id here there (old, parts, got) =
      offer_lem sinks msgs old msg k (suc j) i (get_elem? sinks (suc j)) id
        (of i (sent ++ (j, sink_message msg x) ∷ [])) refl there parts
        (elim (Bool-cases (j == i)) [
          | inl same ↦
              let at : j ≡ i = ground arith in
              let one : x ≡ id = some-injective (sym here ∙ ap (get_elem? sinks) at ∙ there) in
              let old_only : ltb i j ≡ false = ground arith in
              let all : ltb i (suc j) ≡ true = ground arith in
              ap (λ j. of i (sent ++ (j, sink_message msg x) ∷ [])) at
              ∙ of_self i (sink_message msg x) sent
              ∙ ap₂ (λ l x. l ++ sink_message msg x ∷ [])
                  (got ∙ ap (λ b. for_sink id (if b then msgs else old)) old_only) one
              ∙ sym (map-append (λ m. sink_message m id) old (msg ∷ []))
              ∙ ap (for_sink id) (sym parts)
              ∙ ap (λ b. for_sink id (if b then msgs else old)) (sym all)
          | inr other ↦
              let off : j ≢ i = λ same. absurd (ground arith) in
              let test : ltb i j ≡ ltb i (suc j) = ground (arith, off) in
              of_other j i (sink_message msg x) sent off
              ∙ got
              ∙ ap (λ b. for_sink id (if b then msgs else old)) test
        ])

  in_phase-Got :
      (sinks : List String) (p : Phase A C) (sent : List (ℕ × Message A C)) (e : Event A C)
      (msgs : List (Message A C)) (k i : ℕ) (id : String)
      → AtSink sinks p
      → get_elem? sinks i ≡ some id
      → Got p msgs k i id (of i sent)
      → Got
          (in_phase sinks p e (record { phase = p; sent = sent })).phase
          (msgs ++ taken_of p e)
          (k + cut e)
          i
          id
          (of i (in_phase sinks p e (record { phase = p; sent = sent })).sent)
  unfolding in_phase
  in_phase-Got sinks reading sent (received msg) msgs k i id h there got =
      let none_yet : false ≡ ltb i 0 = ground arith in
      offer_lem sinks (msgs ++ msg ∷ []) msgs msg (k + 0) 0 i (get_elem? sinks 0) id (of i sent)
        refl there refl
        (got ∙ ap (λ b. for_sink id (if b then msgs ++ msg ∷ [] else msgs)) none_yet)
  in_phase-Got sinks reading sent input_closed msgs k i id h there got =
      (msgs, [], refl, omega arith, omega arith, got)
  in_phase-Got sinks reading sent accepted msgs k i id h there got =
      Got-more reading msgs k 0 i id (of i sent) got
  in_phase-Got sinks reading sent cancelled msgs k i id h there got =
      Got-more reading msgs k 1 i id (of i sent) got
  in_phase-Got sinks (offering msg j x) sent accepted msgs k i id h there got =
      let sent' = sent ++ (j, sink_message msg x) ∷ [] in
      Got-more (offer msg (suc j) (get_elem? sinks (suc j))) msgs k 0 i id (of i sent')
        (accept-Got sinks msgs sent msg k j i x id h there got)
  in_phase-Got sinks (offering msg j x) sent cancelled msgs k i id h there (old, parts, got) =
      elim (Bool-cases (ltb i j)) [
        | inl before ↦ (
          msgs,
          [],
          refl,
          omega arith,
          omega arith,
          got ∙ ap (λ b. for_sink id (if b then msgs else old)) before,
        )
        | inr behind ↦ (
          old,
          msg ∷ [],
          append_nil msgs ∙ parts,
          omega arith,
          omega arith,
          got ∙ ap (λ b. for_sink id (if b then msgs else old)) behind,
        )
      ]
  in_phase-Got sinks (offering msg j x) sent (received m) msgs k i id h there got =
      Got-more (offering msg j x) msgs k 0 i id (of i sent) got
  in_phase-Got sinks (offering msg j x) sent input_closed msgs k i id h there got =
      Got-more (offering msg j x) msgs k 0 i id (of i sent) got
  in_phase-Got sinks returned sent (received m) msgs k i id h there got =
      Got-more returned msgs k 0 i id (of i sent) got
  in_phase-Got sinks returned sent input_closed msgs k i id h there got =
      Got-more returned msgs k 0 i id (of i sent) got
  in_phase-Got sinks returned sent accepted msgs k i id h there got =
      Got-more returned msgs k 0 i id (of i sent) got
  in_phase-Got sinks returned sent cancelled msgs k i id h there got =
      Got-more returned msgs k 1 i id (of i sent) got

  pub run-Got :
      (sinks : List String) (b : Broadcast A C) (es : List (Event A C)) (msgs : List (Message A C))
      (k i : ℕ) (id : String)
      → AtSink sinks b.phase
      → get_elem? sinks i ≡ some id
      → Got b.phase msgs k i id (of i b.sent)
      → Got
          (run sinks b es).phase
          (msgs ++ taken sinks b es)
          (k + cuts es)
          i
          id
          (of i (run sinks b es).sent)
  unfolding run step taken
  run-Got sinks b [] msgs k i id h there got = Got-more b.phase msgs k 0 i id (of i b.sent) got
  run-Got sinks b (e ∷ es) msgs k i id h there got =
      let b' = step sinks b e in
      let first = in_phase-Got sinks b.phase b.sent e msgs k i id h there got in
      let rest =
        run-Got sinks b' es (msgs ++ taken_of b.phase e) (k + cut e) i id
          (in_phase-AtSink sinks b.phase b.sent e h) there first in
      let same : k + cut e + cuts es ≡ k + (cut e + cuts es) = omega arith in
      subst
        (λ n.
          Got (run sinks b' es).phase (msgs ++ (taken_of b.phase e ++ taken sinks b' es)) n i id
            (of i (run sinks b' es).sent))
        same
        (subst
          (λ ms.
            Got (run sinks b' es).phase ms (k + cut e + cuts es) i id (of i (run sinks b' es).sent))
          (append_assoc msgs (taken_of b.phase e) (taken sinks b' es)) rest)
