-- ===== src/Pipe/Broadcast.antt =====
-- pipe/pipe.go: the message that `broadcastToSinks` makes for one sink, and pipe/runner.go: how the
-- sink's runner confirms it. The goroutine of the broadcast is in Sending.
pub mod Confirming
pub mod Sending
pub mod Getting
pub mod Delivered
use phono.Base.{List, [], ◌∷◌, String}
use phono.Pipe.Params.{World, apply_to, detach}
use phono.Pipe.Message.{Message}

module _ {A C : Type 0} where
  -- `m := message{...}` in the loop over the broadcasts.
  unfoldable pub sink_message : Message A C → String → Message A C
  sink_message msg sink = record {
    buffer = msg.buffer;
    params = detach msg.params sink;
    source_id = msg.source_id;
    feedback = detach msg.feedback sink;
  }

  -- `m.feedback.applyTo(r.ID())`, after the sink has taken the buffer.
  unfoldable pub confirm : Message A C → String → World C → World C
  confirm m sink w = (apply_to m.feedback sink w).1

  -- Every sink, one after another, gets its message and confirms it.
  unfoldable pub confirm_all : Message A C → List String → World C → World C
  confirm_all msg [] w = w
  confirm_all msg (sink ∷ sinks) w = confirm_all msg sinks (confirm (sink_message msg sink) sink w)
