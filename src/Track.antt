-- ===== src/Track.antt =====
-- track/track.go: a track, a doubly linked list of clips. The clips are in a store and a pointer is a
-- number in it; `none` is nil. Positions are int64 and wrap around; the numbers of channels and
-- samples of a buffer are not negative. The loops have fuel, and `blocked` is its end. The channel
-- `newIndex` is not used by the code.
pub mod Pumping
pub mod Waiting
pub mod Playing
pub mod Starting
pub mod Links
pub mod Pieces
pub mod Around
pub mod Timeline
pub mod Placing
pub mod Ending
pub mod Cutting
pub mod Adding
pub mod Built
pub mod Added
pub mod Inserting
pub mod Aligning
use phono.Base.{
  ℕ, zero, suc, List, [], ◌∷◌, ◌++◌, Option, none, some, String, length, get_elem?, set,
  if◌then◌else◌,
}
use phono.Base.Int.{ℤ, pos, negsuc, ltb_ℤ, leb_ℤ, add64, sub64}
use phono.Base.Outcome.{Outcome, done, panic, blocked, ◌>>=◌}
use phono.Buffer.{Buffer, Clip, clip}

-- `clip`
pub record Node (A : Type 0) : Type 0 where
  pub at : ℤ
  pub clip : Clip A
  pub next : Option ℕ
  pub prev : Option ℕ

-- `Track`; `first` and `last` are its fields `start` and `end`.
pub record Track (A : Type 0) : Type 0 where
  pub uid : String
  pub bs : ℕ
  pub num_channels : ℕ
  pub first : Option ℕ
  pub last : Option ℕ
  pub current : Option ℕ
  pub next_index : ℤ
  pub heap : List (Node A)

module _ {A : Type 0} where
  -- `*c`, a panic for nil.
  abbrev pub or_panic : Option (Node A) → Outcome (Node A)
  or_panic none = panic
  or_panic (some n) = done n

  unfoldable pub node : Option ℕ → List (Node A) → Outcome (Node A)
  node none heap = panic
  node (some p) heap = or_panic (get_elem? heap p)

  -- `End` of a clip that is not nil.
  abbrev pub end_of : Node A → ℤ
  end_of n = add64 n.at n.clip.len

  -- Writes to the fields of a clip.
  abbrev pub set_next : Option ℕ → Node A → Node A
  set_next q n = record n { next = q }

  abbrev pub set_prev : Option ℕ → Node A → Node A
  set_prev q n = record n { prev = q }

  unfoldable pub update : ℕ → (Node A → Node A) → Track A → Outcome (Track A)
  update p f t = do n ← node (some p) t.heap; done (record t { heap = set t.heap p (f n) })

  -- `New`, with the id that `NewUID` makes.
  unfoldable pub new_track : String → ℕ → ℕ → Track A
  new_track uid bs nc = record {
    uid = uid;
    bs = bs;
    num_channels = nc;
    first = none;
    last = none;
    current = none;
    next_index = pos 0;
    heap = [];
  }

  -- The mutator of `BufferSizeParam`.
  unfoldable pub buffer_size_param : ℕ → Track A → Track A
  buffer_size_param bs t = record t { bs = bs }

  -- `Reset`
  unfoldable pub reset : Track A → Track A
  reset t = record t { first = none; last = none }

  -- The loop of `clipAfter`.
  unfoldable pub clip_after : ℕ → ℤ → Option ℕ → List (Node A) → Outcome (Option ℕ)
  clip_after zero index p heap = blocked
  clip_after (suc fuel) index none heap = done none
  clip_after (suc fuel) index (some p) heap = do
    n ← node (some p) heap
    let rest = clip_after fuel index n.next heap
    if leb_ℤ index n.at then done (some p) else rest

  -- `clipsEnd`
  unfoldable pub clips_end : Track A → Outcome ℤ
  clips_end t = elim t.last [
    | none ↦ done (negsuc 0)
    | some p ↦ do n ← node (some p) t.heap; done (end_of n)
  ]

  -- `next` behind the clip c, in `alignNextClip`, when it is removed.
  unfoldable pub remove_next : ℕ → Option ℕ → Track A → Outcome (Track A)
  remove_next c none t = do t1 ← update c (set_next none) t; done (record t1 { last = some c })
  remove_next c (some q) t = do t1 ← update c (set_next (some q)) t; update q (set_prev (some c)) t1

  -- `next` is shortened.
  abbrev pub shorten : ℤ → Node A → Node A
  shorten overlap n = record n {
    clip = record n.clip { start = add64 n.clip.start overlap; len = sub64 n.clip.len overlap };
    at = add64 n.at overlap;
  }

  -- `alignNextClip` with the clip behind; `again` is its call of itself.
  unfoldable pub align_with :
      (Track A → Outcome (Track A)) → ℕ → Node A → Option ℕ → Track A → Outcome (Track A)
  align_with again c cn none t = done t
  align_with again c cn (some q) t = do
    n ← node (some q) t.heap
    let overlap = add64 (sub64 cn.at n.at) cn.clip.len
    let removed = (do t1 ← remove_next c n.next t; again t1)
    let aligned = if ltb_ℤ overlap n.clip.len then update q (shorten overlap) t else removed
    if ltb_ℤ (pos 0) overlap then aligned else done t

  -- `alignNextClip`
  unfoldable pub align_next : ℕ → ℕ → Track A → Outcome (Track A)
  align_next zero c t = blocked
  align_next (suc fuel) c t = do
    cn ← node (some c) t.heap
    align_with (align_next fuel c) c cn cn.next t

  -- `alignPrevClip` of a clip cn with the clip before it, with `AddClip`.
  unfoldable pub align_behind :
      (ℤ → Clip A → Track A → Outcome (Track A)) → Node A → Option ℕ → Track A → Outcome (Track A)
  align_behind add_clip cn none t = done t
  align_behind add_clip cn (some p) t = do
    n ← node (some p) t.heap
    let overlap = add64 (sub64 n.at cn.at) n.clip.len
    let cut = record n.clip { len = sub64 n.clip.len overlap }
    let at = add64 cn.at cn.clip.len
    let start = sub64 (add64 (add64 overlap cn.clip.len) cn.at) n.at
    let len = sub64 overlap cn.clip.len
    let t1 = update p (λ m. record m { clip = cut }) t
    let t2 = (do t' ← t1; add_clip at (clip n.clip.buffer start len) t')
    let aligned = if ltb_ℤ cn.clip.len overlap then t2 else t1
    if ltb_ℤ (pos 0) overlap then aligned else done t

  -- `alignPrevClip`
  unfoldable pub align_prev :
      (ℤ → Clip A → Track A → Outcome (Track A)) → ℕ → Track A → Outcome (Track A)
  align_prev add_clip c t = do cn ← node (some c) t.heap; align_behind add_clip cn cn.prev t

  -- The clip behind a new one c: what was its `prev` is that of c now.
  unfoldable pub link_next : ℕ → Option ℕ → Track A → Outcome (Option ℕ × Track A)
  link_next c none t = done (t.last, record t { last = some c })
  link_next c (some q) t = do
    n ← node (some q) t.heap
    t1 ← update q (set_prev (some c)) t
    done (n.prev, t1)

  -- The clip before it.
  unfoldable pub link_prev : ℕ → Option ℕ → Track A → Outcome (Track A)
  link_prev c none t = done (record t { first = some c })
  link_prev c (some p) t = update p (set_next (some c)) t

  -- A new clip c in a track that has clips, before `resolveOverlaps`.
  unfoldable pub insert_clip : ℕ → ℤ → Track A → Outcome (Track A)
  insert_clip c at t = do
    next ← clip_after (suc (length t.heap)) at t.first t.heap
    (prev, t1) ← link_next c next t
    t2 ← link_prev c prev t1
    t3 ← update c (set_next next) t2
    update c (set_prev prev) t3

  -- The new clip, and `t.current = nil`.
  abbrev pub with_clip : ℤ → Clip A → Track A → Track A
  with_clip at f t = record t {
    current = none;
    heap = t.heap ++ record { at = at; clip = f; next = none; prev = none } ∷ [];
  }

  -- `AddClip` in a track that has the clip `first`; `again` is its call of itself.
  unfoldable pub add_with :
      (ℤ → Clip A → Track A → Outcome (Track A))
      → ℤ
      → Clip A
      → Option ℕ
      → Track A
      → Outcome (Track A)
  add_with again at f none t =
      done (record (with_clip at f t) { first = some (length t.heap); last = some (length t.heap) })
  add_with again at f (some p) t = do
    t1 ← insert_clip (length t.heap) at (with_clip at f t)
    t2 ← align_next (suc (length t1.heap)) (length t.heap) t1
    align_prev again (length t.heap) t2

  -- `AddClip`, with fuel for its calls of itself.
  unfoldable pub add_clip : ℕ → ℤ → Clip A → Track A → Outcome (Track A)
  add_clip zero at f t = blocked
  add_clip (suc fuel) at f t = add_with (add_clip fuel) at f t.first t
