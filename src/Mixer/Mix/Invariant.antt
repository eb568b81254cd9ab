-- ===== src/Mixer/Mix/Invariant.antt =====
-- mixer/mixer.go: what holds of the frames between two messages, while no input is registered.
use phono.Base.{
  ℕ, suc, ◌+◌, ◌≤◌, ◌<◌, ◌≡◌, List, [], ◌∷◌, Option, none, some, String, length, get_elem?, ltb,
  if◌then◌else◌,
}
use phono.Base.Dict.{IsMap}
use phono.Buffer.{Buffer}
use phono.Mixer.Frames.{Frame}
use phono.Mixer.Mix.{Mixer, stopped}
use phono.Mixer.Mix.Waiting.{Live, waiting, IsBelow}

-- The pointer to the frame behind number k, of n.
abbrev pub next_of : ℕ → ℕ → Option ℕ
next_of k n = if ltb (suc k) n then some (suc k) else none

-- The first frame that was not sent lacks a buffer.
abbrev pub IsStalled : Live → ℕ → ℕ → Type 0
IsStalled live n sent = (sent ≤ n) × (sent < n → 1 ≤ waiting sent live)

module _ {A : Type 0} where
  -- Frame number k of n, whose inputs are `live`; no input that has ended gave more than `longest`
  -- buffers.
  pub record IsFrame (live : Live) (longest n k : ℕ) (f : Frame A) : Type 0 where
    pub next : f.next ≡ next_of k n
    pub total : f.expected ≡ length f.buffers + waiting k live
    pub enough : length live ≤ f.expected
    pub fresh : longest ≤ k → f.expected ≡ length live

  abbrev pub AreFrames : Live → ℕ → List (Frame A) → Type 0
  AreFrames live longest heap =
      (k : ℕ) (f : Frame A) → get_elem? heap k ≡ some f → IsFrame live longest (length heap) k f

  -- The frames that were sent are the first ones, and nothing more is waited for.
  abbrev pub AreSent : Live → List (Frame A) → List (List (Buffer A)) → Type 0
  AreSent live heap out =
      (k : ℕ) (f : Frame A)
      → get_elem? heap k ≡ some f
      → k < length out
      → (get_elem? out k ≡ some f.buffers) × (waiting k live ≡ 0)

-- The pointers that the map of the mixer holds.
abbrev pub pointers : Live → List (String × Option ℕ)
pointers [] = []
pointers ((id, c) ∷ live) = (id, some c) ∷ pointers live

module _ {A : Type 0} where
  abbrev pub SameFormat : ℕ → ℕ → Mixer A → Type 0
  SameFormat num_channels buffer_size m =
      (m.num_channels ≡ num_channels) × (m.buffer_size ≡ buffer_size)

  pub record Inv (live : Live) (longest : ℕ) (m : Mixer A) : Type 0 where
    pub inputs : m.frames ≡ pointers live
    pub distinct : IsMap live
    pub below : IsBelow (length m.heap) live
    pub are_frames : AreFrames live longest m.heap
    pub are_sent : AreSent live m.heap m.out
    pub within : length m.out ≤ length m.heap
    pub stalled : 1 ≤ length live → IsStalled live (length m.heap) (length m.out)
    pub finished : length live ≡ 0 → longest ≤ length m.out
    pub returned : length live ≡ 0 → m.phase ≡ stopped
