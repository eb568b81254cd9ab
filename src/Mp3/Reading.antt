-- ===== src/Mp3/Reading.antt =====
-- mp3/pump.go: what the pump returns for what the decoder delivers.
use phono.Base.{
  ℕ, zero, suc, ◌+◌, ◌*◌, ◌<◌, ◌≤◌, ◌≡◌, refl, ap, ◌∙◌, true, false, List, [], ◌∷◌, ◌++◌, none,
  some, length, length-append, map, arith,
}
use phono.Base.Int.{ℤ, pos}
use phono.Base.Outcome.{done}
use phono.Pipe.Runner.{eop}
use phono.Pipe.Runner.PumpRunner.{buffer, failure}
use phono.Mp3.{
  Read, value, end_of_file, Pump, go_on, after_read, wants_more, after_round, read_round, read_loop,
  padded, read_result, pump,
}
use phono.Mp3.Deinterleaving.{evens, odds, read_ints-empty_buffer}

abbrev pub last : ℤ → List ℤ → ℤ
last val [] = val
last val (x ∷ xs) = last x xs

module _ {D : Type 0} (read : D → D × Read) where
  -- Reading gives these values one after another, and leaves the decoder so.
  abbrev pub Delivers : D → List ℤ → D → Type 0
  Delivers d [] d' = d ≡ d'
  Delivers d (x ∷ xs) d' = ((read d).1 ≡ value x) × Delivers (read d).0 xs d'

  append_one : (ints xs : List ℤ) (x : ℤ) → (ints ++ x ∷ []) ++ xs ≡ ints ++ (x ∷ xs)
  append_one [] xs x = refl
  append_one (y ∷ ints) xs x = ap (◌∷◌ y) (append_one ints xs x)

  wants_more-true :
      (ints : List ℤ) (p : Pump D)
      → p.is_done ≡ false
      → length ints < p.buffer_size * 2
      → wants_more ints p ≡ true
  unfolding wants_more
  wants_more-true ints p going h = ground arith

  wants_more-false :
      (ints : List ℤ) (p : Pump D) → p.buffer_size * 2 ≤ length ints → wants_more ints p ≡ false
  unfolding wants_more
  wants_more-false ints p h = ground arith

  append_empty : (xs : List ℤ) → xs ≡ xs ++ []
  append_empty [] = refl
  append_empty (x ∷ xs) = ap (◌∷◌ x) (append_empty xs)

  round-value :
      (val x : ℤ) (ints : List ℤ) (p : Pump D)
      → (read p.d).1 ≡ value x
      → read_round read val ints p ≡ (record p { d = (read p.d).0 }, go_on x (ints ++ x ∷ []))
  unfolding read_round after_read
  round-value val x ints p e = rw (e, after_read) refl

  round-end_of_file :
      (val : ℤ) (ints : List ℤ) (p : Pump D)
      → (read p.d).1 ≡ end_of_file
      → read_round read val ints p
        ≡ (record p { d = (read p.d).0; is_done = true }, go_on val (ints ++ val ∷ []))
  unfolding read_round after_read
  round-end_of_file val ints p e = rw (e, after_read) refl

  read_loop-go_on :
      (f : ℕ) (val val' : ℤ) (ints ints' : List ℤ) (p p' : Pump D)
      → wants_more ints p ≡ true
      → read_round read val ints p ≡ (p', go_on val' ints')
      → read_loop read (suc f) val ints p ≡ read_loop read f val' ints' p'
  unfolding read_loop after_round
  read_loop-go_on f val val' ints ints' p p' h e =
      let again = after_round (read_loop read f) ints in
      let opened : read_loop read (suc f) val ints p ≡ again (read_round read val ints p) =
        rw h refl in
      opened ∙ ap again e

  read_loop-value :
      (f : ℕ) (val x : ℤ) (ints : List ℤ) (p : Pump D)
      → p.is_done ≡ false
      → length ints < p.buffer_size * 2
      → (read p.d).1 ≡ value x
      → read_loop read (suc f) val ints p
        ≡ read_loop read f x (ints ++ x ∷ []) (record p { d = (read p.d).0 })
  read_loop-value f val x ints p going h e =
      read_loop-go_on f val x ints (ints ++ x ∷ []) p (record p { d = (read p.d).0 })
        (wants_more-true ints p going h) (round-value val x ints p e)

  read_loop_enough :
      (f : ℕ) (val : ℤ) (ints : List ℤ) (p : Pump D)
      → wants_more ints p ≡ false
      → read_loop read (suc f) val ints p ≡ done (p, (none, ints))
  unfolding read_loop
  read_loop_enough f val ints p h = rw h refl

  read_loop-end_of_file :
      (f : ℕ) (val : ℤ) (ints : List ℤ) (p : Pump D)
      → p.is_done ≡ false
      → length ints < p.buffer_size * 2
      → (read p.d).1 ≡ end_of_file
      → read_loop read (suc (suc f)) val ints p
        ≡ done (record p { d = (read p.d).0; is_done = true }, (none, ints ++ val ∷ []))
  unfolding wants_more
  read_loop-end_of_file f val ints p going h e =
      let p' = record p { d = (read p.d).0; is_done = true } in
      read_loop-go_on (suc f) val val ints (ints ++ val ∷ []) p p' (wants_more-true ints p going h)
        (round-end_of_file val ints p e)
      ∙ read_loop_enough f val (ints ++ val ∷ []) p' refl

  read_loop-full :
      (f : ℕ) (val : ℤ) (ints xs : List ℤ) (p : Pump D) (d' : D)
      → length xs < f
      → p.is_done ≡ false
      → Delivers p.d xs d'
      → length ints + length xs ≡ p.buffer_size * 2
      → read_loop read f val ints p ≡ done (record p { d = d' }, (none, ints ++ xs))
  unfolding wants_more
  read_loop-full zero val ints xs p d' h going e l = absurd (omega arith)
  read_loop-full (suc f) val ints [] p d' h going e l =
      read_loop_enough f val ints p (wants_more-false ints p (omega arith))
      ∙ ap (λ l. done (p, (none, l))) (append_empty ints)
      ∙ ap (λ d. done (record p { d = d }, (none, ints ++ []))) e
  read_loop-full (suc f) val ints (x ∷ xs) p d' h going e l =
      let longer = length-append ints (x ∷ []) in
      read_loop-value f val x ints p going (omega arith) e.0
      ∙ rw (← append_one ints xs x) (
          read_loop-full f x (ints ++ x ∷ []) xs (record p { d = (read p.d).0 }) d' (omega arith)
            going e.1 (omega arith))

  read_loop-short :
      (f : ℕ) (val : ℤ) (ints xs : List ℤ) (p : Pump D) (d' : D)
      → suc (length xs) < f
      → p.is_done ≡ false
      → Delivers p.d xs d'
      → (read d').1 ≡ end_of_file
      → length ints + length xs < p.buffer_size * 2
      → read_loop read f val ints p
        ≡ done
            (record p { d = (read d').0; is_done = true }, (none, ints ++ (xs ++ last val xs ∷ [])))
  read_loop-short zero val ints xs p d' h going e end l = absurd (omega arith)
  read_loop-short (suc zero) val ints [] p d' h going e end l = absurd (omega arith)
  read_loop-short (suc (suc f)) val ints [] p d' h going e end l =
      read_loop-end_of_file f val ints p going (omega arith) (ap (λ d. (read d).1) e ∙ end)
      ∙ ap (λ d. done (record p { d = (read d).0; is_done = true }, (none, ints ++ val ∷ []))) e
  read_loop-short (suc f) val ints (x ∷ xs) p d' h going e end l =
      let longer = length-append ints (x ∷ []) in
      read_loop-value f val x ints p going (omega arith) e.0
      ∙ rw (← append_one ints (xs ++ last x xs ∷ []) x) (
          read_loop-short f x (ints ++ x ∷ []) xs (record p { d = (read p.d).0 }) d' (omega arith)
            going e.1 end (omega arith))

padded_even : (xs : List ℤ) (n : ℕ) → length xs ≡ n * 2 → padded xs ≡ xs
padded_even xs n l = ground arith

module _ {D A : Type 0} (read : D → D × Read) (of_int : ℤ → A) (zero_sample : A) where
  pump-read_loop :
      (p p' : Pump D) (ints : List ℤ)
      → p.is_done ≡ false
      → read_loop read (suc (p.buffer_size * 2)) (pos 0) [] p ≡ done (p', (none, ints))
      → pump read of_int zero_sample p ≡ done (p', read_result of_int zero_sample none ints)
  unfolding pump
  pump-read_loop p p' ints going e = rw (e, going) refl

  -- A whole buffer: if the decoder delivers at least two numbers for each sample of a buffer, the
  -- pump returns a buffer of two channels, the left one of the numbers at even positions and
  -- the right one of those at odd positions, and goes on where the decoder stopped.
  pub pump-full :
      (p : Pump D) (xs : List ℤ) (d' : D)
      → p.is_done ≡ false
      → Delivers read p.d xs d'
      → length xs ≡ p.buffer_size * 2
      → pump read of_int zero_sample p
        ≡ done
            (record p { d = d' }, buffer (some (map of_int (evens xs) ∷ map of_int (odds xs) ∷ [])))
  unfolding read_result
  pump-full p xs d' going e l =
      let loop =
        read_loop-full read (suc (p.buffer_size * 2)) (pos 0) [] xs p d' (omega arith) going e
          (omega arith) in
      pump-read_loop p (record p { d = d' }) xs going loop
      ∙ rw
          (padded_even xs p.buffer_size l, read_ints-empty_buffer of_int zero_sample (length xs) xs)
          refl

  -- At the end of the file: if the decoder delivers fewer numbers than a buffer takes, and then the
  -- end of the file, the pump returns these numbers and behind them the last of them once more, or
  -- a zero if there is none, and a zero if their count is then odd, as a buffer of two channels.
  -- The next call returns the end of the pipe.
  pub pump-end_of_file :
      (p : Pump D) (xs : List ℤ) (d' : D)
      → p.is_done ≡ false
      → Delivers read p.d xs d'
      → (read d').1 ≡ end_of_file
      → length xs < p.buffer_size * 2
      → let ints = padded (xs ++ last (pos 0) xs ∷ []) in
        let p' = record p { d = (read d').0; is_done = true } in
        (pump read of_int zero_sample p
          ≡ done (p', buffer (some (map of_int (evens ints) ∷ map of_int (odds ints) ∷ []))))
        × (pump read of_int zero_sample p' ≡ done (p', failure eop))
  unfolding pump read_result
  pump-end_of_file p xs d' going e end l =
      let p' = record p { d = (read d').0; is_done = true } in
      let ints = xs ++ last (pos 0) xs ∷ [] in
      let loop =
        read_loop-short read (suc (p.buffer_size * 2)) (pos 0) [] xs p d' (omega arith) going e end
          (omega arith) in
      (
        pump-read_loop p p' ints going loop
            ∙ rw (read_ints-empty_buffer of_int zero_sample (length (padded ints)) (padded ints))
                refl,
        refl,
      )
