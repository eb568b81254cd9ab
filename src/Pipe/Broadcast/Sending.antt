-- ===== src/Pipe/Broadcast/Sending.antt =====
-- pipe/pipe.go: the goroutine of `broadcastToSinks`. Its phase is the receive from the channel `in`, or
-- the select for one sink; what it sends is kept with the number of the sink.
use phono.Base.{ℕ, suc, List, [], ◌∷◌, ◌++◌, Option, none, some, String, get_elem?}
use phono.Pipe.Message.{Message}
use phono.Pipe.Broadcast.{sink_message}

pub data Phase (A C : Type 0) : Type 0 where
  reading : Phase A C
  offering : Message A C → ℕ → String → Phase A C
  returned : Phase A C  -- the broadcasts are closed

pub record Broadcast (A C : Type 0) : Type 0 where
  pub phase : Phase A C
  pub sent : List (ℕ × Message A C)

pub data Event (A C : Type 0) : Type 0 where
  received : Message A C → Event A C
  input_closed : Event A C
  accepted : Event A C  -- the sink receives the message
  cancelled : Event A C

module _ {A C : Type 0} where
  -- Where the loop over the broadcasts goes on with a sink, if there is one.
  abbrev pub offer : Message A C → ℕ → Option String → Phase A C
  offer msg i none = reading
  offer msg i (some id) = offering msg i id

  unfoldable pub in_phase : List String → Phase A C → Event A C → Broadcast A C → Broadcast A C
  unfolding sink_message
  in_phase sinks reading (received msg) b = record b { phase = offer msg 0 (get_elem? sinks 0) }
  in_phase sinks reading input_closed b = record b { phase = returned }
  in_phase sinks (offering msg i id) accepted b = record {
    phase = offer msg (suc i) (get_elem? sinks (suc i));
    sent = b.sent ++ (i, sink_message msg id) ∷ [];
  }
  in_phase sinks (offering msg i id) cancelled b = record b { phase = returned }
  in_phase sinks p e b = b

  unfoldable pub step : List String → Broadcast A C → Event A C → Broadcast A C
  step sinks b e = in_phase sinks b.phase e b

  -- `go func()`
  unfoldable pub start : Broadcast A C
  start = record { phase = reading; sent = [] }

  unfoldable pub run : List String → Broadcast A C → List (Event A C) → Broadcast A C
  run sinks b [] = b
  run sinks b (e ∷ es) = run sinks (step sinks b e) es
