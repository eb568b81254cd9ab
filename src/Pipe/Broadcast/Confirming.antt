-- ===== src/Pipe/Broadcast/Confirming.antt =====
-- pipe/state.go: the message of the pausing state, and the wait for its sinks.
use phono.Base.{
  ℕ, ◌+◌, ◌≡◌, ◌∙◌, List, ◌∷◌, some, String, arith, length, All, ◌==◌, false, if◌then◌else◌,
}
use phono.Base.Outcome.{Outcome, done, blocked, ◌>>=◌}
use phono.Pipe.Params.{World, wait_all}
use phono.Pipe.Params.Laws.{IsSound}
use phono.Pipe.Message.{Message, Pipe, new_message}
use phono.Pipe.Machine.{pausing, paused, Machine}
use phono.Pipe.Loop.{provided, pausing_message, on_provide, proceed, listen, step}
use phono.Pipe.Loop.Confirmed.{IsQuiet, IsAmong, IsDistinct, pausing_rest}
use phono.Pipe.Loop.Diagram.{step_at}
use phono.Pipe.Broadcast.{confirm_all}

module _ {A C : Type 0} where
  waited :
      (w : World C) (rest : ℕ) (next : World C → Outcome (Machine A C))
      → w.waiting ≡ rest
      → w.negative ≡ false
      → (do w' ← wait_all w; next w') ≡ (if rest == 0 then next w else blocked)
  unfolding wait_all
  waited w rest next h k = ground arith

  -- The message of the pausing state, for a pipe whose sinks have distinct ids, whose maps of
  -- mutators are made, and whose cached feedback leaves the wait group alone: the wait group is set to
  -- the number of sinks, and when some of the sinks have confirmed the message, once each, it stands
  -- at the number of those that are left, and no `Done` was below zero. If none is left the loop
  -- proceeds to the paused state, and otherwise it is blocked for ever.
  pub pausing_confirmed :
      (m : Machine A C) (confirmed : List String) (rest : ℕ)
      → m.state ≡ some pausing
      → IsDistinct m.pipe.sinks
      → IsSound m.pipe.params
      → IsSound m.pipe.feedback
      → IsQuiet m.pipe.feedback
      → IsDistinct confirmed
      → All (λ id. IsAmong id m.pipe.sinks) confirmed
      → length confirmed + rest ≡ length m.pipe.sinks
      → let p : Pipe C = (new_message {A = A} m.pipe).0 in
        (msg : Message A C) × (w : World C) × (pausing_message m.pipe m.world ≡ done (p, msg, w))
        × (w.waiting ≡ length m.pipe.sinks)
        × (let w' = confirm_all msg confirmed w in
            ((w'.waiting ≡ rest) × (w'.negative ≡ false))
            × (step m (provided confirmed) ≡ (
                if rest == 0
                then proceed pausing
                    (some paused)
                    (record m { pipe = p; world = w'; emitted = msg ∷ m.emitted })
                else blocked)))
  unfolding listen on_provide
  pausing_confirmed m confirmed rest at d ps fb quiet once among count =
      let (msg, w, sends, all, left, kept) =
        pausing_rest {A = A} m.pipe m.world confirmed rest d ps fb quiet among count in
      (
        msg,
        w,
        sends,
        all,
        (
          (left, kept),
          step_at m pausing (provided confirmed) at
              ∙ rw sends (waited (confirm_all msg confirmed w) rest _ left kept),
        ),
      )
