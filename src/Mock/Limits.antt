-- ===== src/Mock/Limits.antt =====
-- mock/mock.go: the messages of a limited pump.
use phono.Base.{ℕ, zero, suc, ◌+◌, ◌^◌, ◌<◌, ◌≡◌, refl, ap, ◌∙◌, List, ◌++◌, some, replicate, arith}
use phono.Base.Int.{pos, add64_pos}
use phono.Base.Outcome.{done}
use phono.Pipe.Runner.{eop}
use phono.Pipe.Runner.PumpRunner.{buffer, failure}
use phono.Buffer.{Buffer}
use phono.Mock.{Counter, Pump, pump, pump_calls, reset_pump, make_buffer, advance}

module _ {A : Type 0} where
  advance_messages :
      (b : Buffer A) (c : Counter) (k : ℕ)
      → k + 1 < 2 ^ 63
      → c.messages ≡ pos k
      → (advance b c).messages ≡ pos (k + 1)
  unfolding advance
  advance_messages b c k h e = rw e (add64_pos k 1 h)

  pump_over :
      (limit : ℕ) (m : Pump A)
      → m.counter.messages ≡ pos limit
      → m.limit ≡ pos limit
      → pump m ≡ done (m, failure eop)
  unfolding pump
  pump_over limit m hm hl = rw (hm, hl) (ground arith)

  pump_calls_over :
      (limit j : ℕ) (m : Pump A)
      → m.counter.messages ≡ pos limit
      → m.limit ≡ pos limit
      → pump_calls j m ≡ done (m, replicate j (failure eop))
  unfolding pump_calls
  pump_calls_over limit zero m hm hl = refl
  pump_calls_over limit (suc j) m hm hl =
      rw (pump_over limit m hm hl, pump_calls_over limit j m hm hl)

  abbrev blank : ℕ → ℕ → A → List (List A)
  blank nc bs v = replicate nc (replicate bs v)

  pump_below :
      (limit k nc bs : ℕ) (m : Pump A)
      → k < limit
      → m.counter.messages ≡ pos k
      → m.limit ≡ pos limit
      → m.num_channels ≡ pos nc
      → m.buffer_size ≡ pos bs
      → let b = some (blank nc bs m.value) in
        pump m ≡ done (record m { counter = advance b m.counter }, buffer b)
  unfolding pump make_buffer
  pump_below limit k nc bs m h hm hl hn hb = rw (hm, hl, hn, hb) (ground arith)

  pump_calls_below :
      (limit n j t k nc bs : ℕ) (m : Pump A)
      → limit < 2 ^ 63
      → n + k ≡ limit
      → t ≡ n + j
      → m.counter.messages ≡ pos k
      → m.limit ≡ pos limit
      → m.num_channels ≡ pos nc
      → m.buffer_size ≡ pos bs
      → (m' : Pump A) × (pump_calls t m
          ≡ done
              (m', replicate n (buffer (some (blank nc bs m.value))) ++ replicate j (failure eop)))
        × (m'.counter.messages ≡ pos limit)
  unfolding pump_calls
  pump_calls_below limit zero j t k nc bs m h hk ht hm hl hn hb =
      let at_limit : m.counter.messages ≡ pos limit = hm ∙ ap pos (omega arith) in
      let whole : t ≡ j = omega arith in
      (m, rw whole (pump_calls_over limit j m at_limit hl), at_limit)
  pump_calls_below limit (suc n) j zero k nc bs m h hk ht hm hl hn hb = absurd (omega arith)
  pump_calls_below limit (suc n) j (suc t) k nc bs m h hk ht hm hl hn hb =
      let first = pump_below limit k nc bs m (omega arith) hm hl hn hb in
      let m1 = record m { counter = advance (some (blank nc bs m.value)) m.counter } in
      let (m', e, l) =
        pump_calls_below limit n j t (k + 1) nc bs m1 h (omega arith) (omega arith)
          (advance_messages (some (blank nc bs m.value)) m.counter k (omega arith) hm) hl hn hb in
      (m', rw (first, e) refl, l)

  -- After a reset a pump with a limit below 2^63 returns as many buffers as the limit says, each of
  -- them of the pump's number of channels and size and filled with its value, and on every call
  -- after that the end of the pipe.
  pump_calls-reset_pump :
      (limit j nc bs : ℕ) (m : Pump A)
      → limit < 2 ^ 63
      → m.limit ≡ pos limit
      → m.num_channels ≡ pos nc
      → m.buffer_size ≡ pos bs
      → (m' : Pump A) × (pump_calls (limit + j) (reset_pump m)
          ≡ done (
            m',
            replicate limit (buffer (some (replicate nc (replicate bs m.value))))
                ++ replicate j (failure eop),
          ))
        × (m'.counter.messages ≡ pos limit)
  unfolding reset_pump
  pump_calls-reset_pump limit j nc bs m h hl hn hb =
      pump_calls_below limit limit j (limit + j) 0 nc bs (reset_pump m) h (omega arith) refl refl hl
        hn hb
