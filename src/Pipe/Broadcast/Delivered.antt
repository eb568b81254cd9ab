-- ===== src/Pipe/Broadcast/Delivered.antt =====
-- pipe/pipe.go: what the goroutine of `broadcastToSinks` sends to every sink.
use mathlib.Core.Path.{subst}
use phono.Base.{
  ℕ, ◌≤◌, ◌≡◌, refl, sym, ap, ◌∙◌, min, map, List, [], ◌∷◌, ◌++◌, append_nil, some, String, length,
  get_elem?, ltb, if◌then◌else◌, arith, Bool-cases, inl, inr,
}
use phono.Pipe.Message.{Message}
use phono.Pipe.Broadcast.{sink_message}
use phono.Pipe.Broadcast.Sending.{Phase, reading, offering, returned, Event, start, run}
use phono.Pipe.MergeErrors.Sums.{of}
use phono.Pipe.Broadcast.Getting.{taken, cuts, for_sink, Got, run-Got}

module _ {A C : Type 0} where
  -- How many of the messages a sink may still wait for.
  abbrev pub lag : Phase A C → ℕ → ℕ
  lag reading k = 0
  lag (offering msg j x) k = 1
  lag returned k = min 1 k

  Got-parts :
      (p : Phase A C) (msgs : List (Message A C)) (k i : ℕ) (id : String) (l : List (Message A C))
      → Got p msgs k i id l
      → (old : List (Message A C)) × (rest : List (Message A C)) × (msgs ≡ old ++ rest)
        × (l ≡ for_sink id old)
        × (length rest ≤ lag p k)
  Got-parts reading msgs k i id l got = (msgs, [], sym (append_nil msgs), got, omega arith)
  Got-parts (offering msg j x) msgs k i id l (old, parts, got) = elim (Bool-cases (ltb i j)) [
    | inl before ↦ (
      msgs,
      [],
      sym (append_nil msgs),
      got ∙ ap (λ b. for_sink id (if b then msgs else old)) before,
      omega arith,
    )
    | inr behind ↦ (
      old,
      msg ∷ [],
      parts,
      got ∙ ap (λ b. for_sink id (if b then msgs else old)) behind,
      omega arith,
    )
  ]
  Got-parts returned msgs k i id l (old, rest, parts, one, few, got) =
      (old, rest, parts, got, omega arith)

  -- Whatever the events, a sink has got the messages that the goroutine has received, in their order,
  -- each with the mutators of this sink only: all of them when the goroutine waits for the next one,
  -- and when it has returned without a cancellation, and all but the last one otherwise at least.
  pub run-sink_message :
      (sinks : List String) (es : List (Event A C)) (i : ℕ) (id : String)
      → get_elem? sinks i ≡ some id
      → (old : List (Message A C)) × (rest : List (Message A C)) × (taken sinks start es
          ≡ old ++ rest)
        × (of i (run sinks start es).sent ≡ map (λ m. sink_message m id) old)
        × (length rest ≤ lag (run sinks start es).phase (cuts es))
  unfolding start
  run-sink_message sinks es i id there =
      let b = run sinks start es in
      Got-parts b.phase (taken sinks start es) (cuts es) i id (of i b.sent) (
        subst (λ n. Got b.phase (taken sinks start es) n i id (of i b.sent)) (omega arith)
          (run-Got sinks start es [] 0 i id tt there refl))
