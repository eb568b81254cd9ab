-- ===== src/Pipe/MergeErrors.antt =====
-- pipe/pipe.go: `mergeErrors`, with a goroutine for every error channel and one that waits for them.
-- What the goroutines do one after another is a list of events, in any order; an event that is not
-- possible in a state leaves it as it is. The errors that were sent on `errc` are kept with the number
-- of the goroutine; the first `taken` of them have been received, and the others are in its buffer.
pub mod Sums
pub mod Stepping
pub mod Merged
use phono.Base.{
  ℕ, zero, suc, ◌+◌, ◌-◌, ◌≡◌, Bool, true, false, List, [], ◌∷◌, ◌++◌, Option, none, some, length,
  get_elem?, set, replicate, ltb, ◌==◌, if◌then◌else◌,
}
use phono.Base.Outcome.{Outcome, done, panic, ◌>>=◌}

-- What a call of `output` is at: a receive from its channel, a send on `errc`, or its end.
pub data Phase (E : Type 0) : Type 0 where
  reading : Phase E
  sending : E → Phase E
  returned : Phase E

-- A call of `output`, and what it has received.
pub record Output (E : Type 0) : Type 0 where
  pub phase : Phase E
  pub got : List E

pub record Merge (E : Type 0) : Type 0 where
  pub outputs : List (Output E)
  pub waiting : ℕ  -- the wait group
  pub capacity : ℕ
  pub sent : List (ℕ × E)
  pub taken : ℕ
  pub closed : Bool

pub data Event (E : Type 0) : Type 0 where
  received : ℕ → E → Event E  -- an error channel has an error
  input_closed : ℕ → Event E  -- an error channel is closed and empty
  delivered : ℕ → Event E  -- an error is sent on `errc`
  taken_out : Event E  -- an error is received from `errc`
  waited : Event E  -- `wg.Wait()` returns

module _ {E : Type 0} where
  -- `mergeErrors` of n channels.
  unfoldable pub merge_errors : ℕ → Merge E
  merge_errors n = record {
    outputs = replicate n (record { phase = reading; got = [] });
    waiting = n;
    capacity = n;
    sent = [];
    taken = 0;
    closed = false;
  }

  -- `for e := range ec`
  unfoldable pub receive : ℕ → E → Output E → Phase E → Merge E → Merge E
  receive i e o reading m = record m {
    outputs = set m.outputs i (record { phase = sending e; got = o.got ++ e ∷ [] });
  }
  receive i e o p m = m

  -- `wg.Done()`, behind the loop.
  unfoldable pub finish : ℕ → Output E → Phase E → Merge E → Outcome (Merge E)
  finish i o reading m =
      if m.waiting == 0
      then panic
      else done (record m {
        outputs = set m.outputs i (record o { phase = returned });
        waiting = m.waiting - 1;
      })
  finish i o p m = done m

  -- `errc <- e`, which waits for room, and panics on a closed channel.
  unfoldable pub deliver : ℕ → Output E → Phase E → Merge E → Outcome (Merge E)
  deliver i o (sending e) m =
      if m.closed
      then panic
      else if ltb (length m.sent) (m.taken + m.capacity)
      then done (record m {
        outputs = set m.outputs i (record o { phase = reading });
        sent = m.sent ++ (i, e) ∷ [];
      })
      else done m
  deliver i o p m = done m

  -- `close(errc)`, behind `wg.Wait()`.
  unfoldable pub close_out : Merge E → Merge E
  close_out m = if m.waiting == 0 then record m { closed = true } else m

  -- An event of the call with a number.
  unfoldable pub at_output :
      (Output E → Merge E → Outcome (Merge E)) → Option (Output E) → Merge E → Outcome (Merge E)
  at_output f none m = done m
  at_output f (some o) m = f o m

  unfoldable pub step : Merge E → Event E → Outcome (Merge E)
  step m (received i e) =
      at_output (λ o m. done (receive i e o o.phase m)) (get_elem? m.outputs i) m
  step m (input_closed i) = at_output (λ o m. finish i o o.phase m) (get_elem? m.outputs i) m
  step m (delivered i) = at_output (λ o m. deliver i o o.phase m) (get_elem? m.outputs i) m
  step m taken_out =
      done (if ltb m.taken (length m.sent) then record m { taken = suc m.taken } else m)
  step m waited = done (close_out m)

  unfoldable pub run : Merge E → List (Event E) → Outcome (Merge E)
  run m [] = done m
  run m (e ∷ es) = do m' ← step m e; run m' es
