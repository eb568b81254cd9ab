-- ===== src/Pipe/Message.antt =====
-- pipe/pipe.go: `message`, the fields of `Pipe` that its methods change, and `newMessage`.
use phono.Base.{Bool, true, false, List, [], ◌∷◌, none, some, String, if◌then◌else◌}
use phono.Buffer.{Buffer}
use phono.Pipe.Params.{Params, no_params}

pub record Message (A C : Type 0) : Type 0 where
  pub buffer : Buffer A
  pub params : Params C
  pub source_id : String
  pub feedback : Params C

-- `p.cancel`: nil before the first run, open, or closed.
pub data Signal : Type 0 where
  unset live fired : Signal

-- Of the pump it matters only whether there is one; the processors are no part of this state.
pub record Pipe (C : Type 0) : Type 0 where
  pub uid : String
  pub name : String
  pub has_pump : Bool  -- `p.pump` is not nil
  pub sinks : List String  -- the ids of the sinks
  pub params : Params C
  pub feedback : Params C
  pub cancel : Signal

-- `len(m) > 0`
abbrev pub has_params : {C : Type 0} → Params C → Bool
has_params none = false
has_params (some []) = false
has_params (some (e ∷ m)) = true

module _ {A C : Type 0} where
  -- `newMessage`: the message takes the cached sets, if they hold anything, and leaves new ones.
  unfoldable pub new_message : Pipe C → Pipe C × Message A C
  new_message p =
      let taken = has_params p.params in
      let fed = has_params p.feedback in
      (
        record p {
          params = if taken then no_params else p.params;
          feedback = if fed then no_params else p.feedback;
        },
        record {
          buffer = none;
          params = if taken then p.params else none;
          source_id = p.uid;
          feedback = if fed then p.feedback else none;
        },
      )
