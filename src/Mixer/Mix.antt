-- ===== src/Mixer/Mix.antt =====
-- mixer/mixer.go: the goroutine `mix` and the methods that talk to it. What waits in the channels
-- `register` and `in`, or in a goroutine that sends on them, is a queue. `out` has the buffers of the
-- frames that were sent: from then on a frame belongs to the pump, which empties it.
pub mod Waiting
pub mod Chain
pub mod Invariant
pub mod Sending
pub mod Messages
pub mod Extending
pub mod Ending
pub mod Contents
pub mod Steps
pub mod Runs
pub mod Columns
pub mod Late
use phono.Base.{
  ℕ, zero, suc, Bool, true, false, List, [], ◌∷◌, ◌++◌, Option, none, some, String, length, set,
  ◌==◌, if◌then◌else◌,
}
use text.Mathlib.Text.{◌==◌ as str_eq}
use phono.Base.Dict.{lookup, insert, delete}
use phono.Base.Outcome.{Outcome, done, panic, ◌>>=◌}
use phono.Buffer.{Buffer}
use phono.Mixer.Frames.{Frame, new_frame, deref, send, reset_expectations}

-- `inMessage`; a nil buffer says that the input has ended.
pub record InMessage (A : Type 0) : Type 0 where
  pub input_id : String
  pub buffer : Buffer A

pub data Phase : Type 0 where
  stopped mixing : Phase

pub record Mixer (A : Type 0) : Type 0 where
  pub uid : String
  pub num_channels : ℕ
  pub buffer_size : ℕ
  pub frames : List (String × Option ℕ)
  pub ended : List String  -- `done`
  pub registered : List String
  pub waiting : List (InMessage A)  -- `in`
  pub output_id : Option String
  pub frame : Option ℕ
  pub is_cancelled : Bool
  pub heap : List (Frame A)
  pub out : List (List (Buffer A))
  pub phase : Phase

-- `for ... m.frames[id] = m.frame`
unfoldable pub add_inputs :
    List String → Option ℕ → List (String × Option ℕ) → List (String × Option ℕ)
add_inputs [] f frames = frames
add_inputs (id ∷ ids) f frames = add_inputs ids f (insert id f frames)

-- Reading the map: nil for a key that is not there.
abbrev pub or_nil : Option (Option ℕ) → Option ℕ
or_nil none = none
or_nil (some p) = p

module _ {A : Type 0} where
  -- `New`
  unfoldable pub new_mixer : String → ℕ → ℕ → Mixer A
  new_mixer uid buffer_size num_channels = record {
    uid = uid;
    num_channels = num_channels;
    buffer_size = buffer_size;
    frames = [];
    ended = [];
    registered = [];
    waiting = [];
    output_id = none;
    frame = none;
    is_cancelled = false;
    heap = [];
    out = [];
    phase = stopped;
  }

  -- `mix` before its main loop: all inputs that are registered, and those that ended in the run
  -- before, start at a first frame.
  unfoldable pub start_mix : Mixer A → Mixer A
  start_mix m =
      let first = some (length m.heap) in
      let frames = add_inputs m.ended first (add_inputs m.registered first m.frames) in
      record m {
        frames = frames;
        ended = [];
        registered = [];
        frame = first;
        heap = m.heap ++ new_frame (length frames) ∷ [];
        phase = mixing;
      }

  -- The case `s := <-m.register` of the main loop.
  unfoldable pub on_register : String → Mixer A → Outcome (Mixer A)
  on_register s m = do
    let frames = insert s m.frame m.frames
    heap ← reset_expectations (suc (length m.heap)) m.frame (length frames) m.heap
    done (record m { frames = frames; heap = heap })

  -- The frame that follows the one at p: a new one if there is none.
  abbrev pub proceed : ℕ → Option ℕ → ℕ → Frame A → List (Frame A) → Option ℕ × List (Frame A)
  proceed p (some n) inputs f heap = (some n, heap)
  proceed p none inputs f heap = (
    some (length heap),
    set heap p (record f { next = some (length heap) }) ++ new_frame inputs ∷ [],
  )

  -- A buffer, with the pointer that the map has for its input.
  unfoldable pub on_buffer : Option ℕ → Option ℕ → String → Buffer A → Mixer A → Outcome (Mixer A)
  on_buffer cut none id b m = panic
  on_buffer cut (some p) id b m = do
    f ← deref (some p) m.heap
    let f' = record f { buffers = f.buffers ++ b ∷ [] }
    let heap = set m.heap p f'
    (frame, out) ← send (suc (length heap)) cut (some p) heap m.out
    let (next, heap') = proceed p f'.next (length m.frames) f' heap
    done (record m { heap = heap'; frame = frame; out = out; frames = insert id next m.frames })

  -- The end of an input. The goroutine returns with the last one.
  unfoldable pub on_end : Option ℕ → Option ℕ → String → Mixer A → Outcome (Mixer A)
  on_end cut p id m = do
    let frames = delete id m.frames
    heap ← reset_expectations (suc (length m.heap)) p (length frames) m.heap
    (frame, out) ← send (suc (length heap)) cut p heap m.out
    done (record m {
      heap = heap;
      frame = frame;
      out = out;
      frames = frames;
      ended = m.ended ++ id ∷ [];
      phase = if length frames == 0 then stopped else m.phase;
    })

  -- The case `msg := <-m.in`.
  unfoldable pub on_message : Option ℕ → InMessage A → Mixer A → Outcome (Mixer A)
  on_message cut msg m = elim msg.buffer [
    | none ↦ on_end cut (or_nil (lookup msg.input_id m.frames)) msg.input_id m
    | some b ↦ on_buffer cut (or_nil (lookup msg.input_id m.frames)) msg.input_id (some b) m
  ]

  -- The messages of a run, while nothing is registered and nothing cancelled.
  unfoldable pub mix_all : List (InMessage A) → Mixer A → Outcome (Mixer A)
  mix_all [] m = done m
  mix_all (msg ∷ messages) m = do m' ← on_message none msg m; mix_all messages m'
