-- ===== src/Track/Pumping.antt =====
-- track/track.go: `bufferAt` and `Pump`. The wanted size is that of the track, and a loop that goes on for
-- ever is one that no fuel is enough for.
use phono.Base.{ℕ, zero, suc, ◌==◌, [], ltb, Option, none, some, length, if◌then◌else◌}
use phono.Base.Int.{ℤ, pos, negsuc, leb_ℤ, add64, sub64}
use phono.Base.Outcome.{Outcome, done, panic, blocked, ◌>>=◌}
use phono.Buffer.{Buffer, size, append, slice, empty_buffer}
use phono.Track.{Node, Track, node, end_of, clip_after, clips_end}

-- What the function of a pump returns.
pub data Given (A : Type 0) : Type 0 where
  given : Buffer A → Given A
  end_of_pipe : Given A

module _ {A : Type 0} where
  -- The part of a clip that started before.
  unfoldable pub going_part : ℕ → ℤ → ℤ → Node A → Outcome (Buffer A)
  going_part bs index buffer_end n =
      let start = add64 (sub64 index n.at) n.clip.start in
      if leb_ℤ (end_of n) buffer_end
      then slice n.clip.buffer start (sub64 (end_of n) index)
      else slice n.clip.buffer start (pos bs)

  -- The clip at which `bufferAt` starts.
  unfoldable pub current_at : ℤ → Track A → Outcome (Option ℕ)
  current_at index t = elim t.current [
    | none ↦ clip_after (suc (length t.heap)) index t.first t.heap
    | some p ↦ done (some p)
  ]

  -- `Pump`
  unfoldable pub start_pump : Track A → Track A
  start_pump t = record t { next_index = pos 0 }

module _ {A : Type 0} (zero_sample : A) where
  -- `EmptyBuffer` of an int: `make` panics for a negative length, and is not called without channels.
  unfoldable pub silence : ℕ → ℤ → Outcome (Buffer A)
  silence nc (pos n) = done (empty_buffer zero_sample nc n)
  silence nc (negsuc n) = if nc == 0 then done (some []) else panic

  -- The result with the offset before a clip that starts in this buffer, and the part of the clip.
  unfoldable pub starting_part : ℕ → ℕ → ℤ → ℤ → Node A → Buffer A → Outcome (Buffer A × Buffer A)
  starting_part bs nc index buffer_end n result = do
    offset ← silence nc (sub64 n.at index)
    result' ← append result offset
    buf ←
        (if leb_ℤ (end_of n) buffer_end
          then slice n.clip.buffer n.clip.start n.clip.len
          else slice n.clip.buffer n.clip.start (sub64 (pos bs) (pos (size result'))))
    done (result', buf)

  -- Both, with the result so far.
  unfoldable pub part : ℕ → ℕ → ℤ → ℤ → Node A → Buffer A → Outcome (Buffer A × Buffer A)
  part bs nc index buffer_end n result =
      if leb_ℤ index n.at
      then starting_part bs nc index buffer_end n result
      else (do buf ← going_part bs index buffer_end n; done (result, buf))

  -- The rest of the result, where there is no clip.
  unfoldable pub silent_round :
      Track A → ℤ → Option ℕ → Buffer A → Outcome (ℤ × (Option ℕ × Buffer A))
  silent_round t index current result = do
    rest ← silence t.num_channels (sub64 (pos t.bs) (pos (size result)))
    result' ← append result rest
    done (index, (current, result'))

  -- One round of the loop of `bufferAt`: the index, the clip and the result behind it.
  unfoldable pub round : ℤ → Track A → ℤ → Option ℕ → Buffer A → Outcome (ℤ × (Option ℕ × Buffer A))
  round buffer_end t index none result = silent_round t index none result
  round buffer_end t index (some p) result = do
    n ← node (some p) t.heap
    let inside = (do
      (offset, buf) ← part t.bs t.num_channels index buffer_end n result
      let index' = add64 index (pos (size buf))
      result' ← append offset buf
      done (index', (if leb_ℤ (end_of n) index' then n.next else some p, result')))
    if leb_ℤ buffer_end n.at then silent_round t index (some p) result else inside

  unfoldable pub fill : ℕ → ℤ → Track A → ℤ → Option ℕ → Buffer A → Outcome (Option ℕ × Buffer A)
  fill zero buffer_end t index current result = blocked
  fill (suc fuel) buffer_end t index current result =
      let rest = (do
        (index', (current', result')) ← round buffer_end t index current result
        fill fuel buffer_end t index' current' result') in
      if ltb (size result) t.bs then rest else done (current, result)

  -- `bufferAt`, with fuel for its loop.
  unfoldable pub buffer_at : ℕ → ℤ → Track A → Outcome (Track A × Buffer A)
  buffer_at fuel index t = do
    current ← current_at index t
    (current', result) ← fill fuel (add64 index (pos t.bs)) t index current none
    done (record t { current = current' }, result)

  -- The function of `Pump`.
  unfoldable pub pump : ℕ → Track A → Outcome (Track A × Given A)
  pump fuel t = do
    end ← clips_end t
    let more = (do
      (t', b) ← buffer_at fuel t.next_index t
      done (record t' { next_index = add64 t.next_index (pos t.bs) }, given b))
    if leb_ℤ end t.next_index then done (t, end_of_pipe) else more
