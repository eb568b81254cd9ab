-- ===== src/Mp3.antt =====
-- mp3/pump.go: the pump that reads mp3 files. The decoder, and `binary.Read` of one int16 from it,
-- are a library's: a state and a function on it. A buffer size is a number, such that `make` finds
-- the memory for two channels.
pub mod Deinterleaving
pub mod Reading
pub mod Sinking
pub mod Opening
pub mod Words
use phono.Base.{
  ℕ, zero, suc, ◌+◌, ◌*◌, ◌%◌, ◌≡◌, Bool, true, false, ◌&&◌, List, [], ◌∷◌, ◌++◌, Option, none,
  some, length, ltb, ◌==◌, if◌then◌else◌,
}
use phono.Base.Int.{ℤ, pos}
use phono.Base.Outcome.{Outcome, done, blocked, ◌>>=◌}
use phono.Buffer.{Buffer, empty_buffer}
use phono.Pcm.{read_ints}
use phono.Pipe.Runner.{Failure, eop, other}
use phono.Pipe.Runner.PumpRunner.{Pumped, buffer, failure}

-- What `binary.Read` does: it sets the value, or returns io.EOF or another error and leaves it.
pub data Read : Type 0 where
  value : ℤ → Read
  end_of_file : Read
  failed : ℕ → Read

pub record Pump (D : Type 0) : Type 0 where
  pub d : D
  pub buffer_size : ℕ
  pub is_done : Bool

-- One round of the loop: the new value and numbers, or an error to return.
pub data Round : Type 0 where
  go_on : ℤ → List ℤ → Round
  give_up : ℕ → Round

module _ {D : Type 0} where
  -- After `binary.Read`: the value is appended also at the end of the file.
  unfoldable pub after_read : ℤ → List ℤ → Read → Pump D → Pump D × Round
  after_read val ints (value n) p = (p, go_on n (ints ++ n ∷ []))
  after_read val ints end_of_file p = (record p { is_done = true }, go_on val (ints ++ val ∷ []))
  after_read val ints (failed n) p = (p, give_up n)

  -- The condition of the loop.
  unfoldable pub wants_more : List ℤ → Pump D → Bool
  wants_more ints p = if p.is_done then false else ltb (length ints) (p.buffer_size * 2)

module _ {D : Type 0} where
  -- The rest of the loop, or the return of the error.
  unfoldable pub after_round :
      (ℤ → List ℤ → Pump D → Outcome (Pump D × (Option ℕ × List ℤ)))
      → List ℤ
      → Pump D × Round
      → Outcome (Pump D × (Option ℕ × List ℤ))
  after_round rest ints (p, go_on val' ints') = rest val' ints' p
  after_round rest ints (p, give_up n) = done (p, (some n, ints))

module _ {D : Type 0} (read : D → D × Read) where
  unfoldable pub read_round : ℤ → List ℤ → Pump D → Pump D × Round
  read_round val ints p = after_read val ints (read p.d).1 (record p { d = (read p.d).0 })

  -- The loop, with the variable `val` and the numbers so far: the numbers, or the error to return.
  -- `blocked` is the end of the fuel.
  unfoldable pub read_loop : ℕ → ℤ → List ℤ → Pump D → Outcome (Pump D × (Option ℕ × List ℤ))
  read_loop zero val ints p = blocked
  read_loop (suc f) val ints p =
      if wants_more ints p
      then after_round (read_loop f) ints (read_round val ints p)
      else done (p, (none, ints))

-- `if len(ints)%2 == 1 { ints = append(ints, 0) }`
abbrev pub padded : List ℤ → List ℤ
padded ints = if length ints % 2 == 1 then ints ++ pos 0 ∷ [] else ints

module _ {A : Type 0} (of_int : ℤ → A) (zero_sample : A) where
  -- What is returned after the loop.
  unfoldable pub read_result : Option ℕ → List ℤ → Pumped A
  read_result (some n) ints = failure (other n)
  read_result none ints =
      buffer (read_ints of_int (empty_buffer zero_sample 2 (length (padded ints))) (padded ints))

module _ {D A : Type 0} (read : D → D × Read) (of_int : ℤ → A) (zero_sample : A) where
  -- The function that `Pump` returns.
  unfoldable pub pump : Pump D → Outcome (Pump D × Pumped A)
  pump p = if p.is_done then done (p, failure eop) else (do
    (p', (err, ints)) ← read_loop read (suc (p.buffer_size * 2)) (pos 0) [] p
    done (p', read_result of_int zero_sample err ints))
