-- ===== src/Tests/PlayTests.antt =====
-- track/track.go: buffers that a track plays of one clip, and a track without channels.
use phono.Base.{ℕ, ◌≡◌, refl, List, [], ◌∷◌, none, some, arith}
use phono.Base.Int.{pos, ◌+ℤ◌, ◌-ℤ◌, wrap64, add64, sub64}
use phono.Base.Outcome.{done, blocked}
use phono.Buffer.{clip, append, append_channels, slice, slice_channels, slice_expr, empty_buffer}
use phono.Track.{
  Track, new_track, add_clip, clip_after, clips_end, node, update, insert_clip, link_next,
  link_prev, align_with, align_next, align_behind, add_with, align_prev, remove_next,
}
use phono.Track.Playing.{clip_at, IsInside, pump-inside}
use phono.Track.Starting.{IsStarting, IsOffset, pump-starting}
use phono.Track.Waiting.{pump-blocked}
use phono.Track.Pumping.{
  given, start_pump, pump, buffer_at, current_at, fill, round, part, starting_part, going_part,
  silent_round, silence,
}

-- A track without channels with the clip of an empty asset.
abbrev silent_track : Track ℕ
silent_track = record (new_track "track" 512 0) {
  first = some 0;
  last = some 0;
  heap = record { at = pos 1000; clip = clip none (pos 0) (pos 10); next = none; prev = none } ∷ [];
}

silent_track_run :
    add_clip 1 (pos 1000) (clip none (pos 0) (pos 10)) (new_track "track" 512 0) ≡ done silent_track
unfolding add_clip clip_after clips_end node update insert_clip link_next link_prev align_with
    align_next align_behind add_with align_prev remove_next new_track start_pump pump buffer_at
    current_at fill round part starting_part going_part silent_round silence add64 sub64 wrap64 ◌+ℤ◌
    ◌-ℤ◌ clip append append_channels slice slice_channels slice_expr empty_buffer
silent_track_run = refl

pump-blocked_example : pump 0 100 silent_track ≡ blocked
unfolding new_track node clip_after clips_end clip add64 wrap64 ◌+ℤ◌
pump-blocked_example =
    pump-blocked 0 silent_track refl (omega arith) (omega arith) 0
      (record { at = pos 1000; clip = clip none (pos 0) (pos 10); next = none; prev = none }) refl
      refl refl refl (pos 1000) refl refl 100

-- A clip at 2 of the fourth to eighth sample, while it is played.
abbrev playing_track : Track ℕ
playing_track = record (new_track "track" 2 1) {
  first = some 0;
  last = some 0;
  current = some 0;
  next_index = pos 4;
  heap = clip_at 2 3 5 ((0 ∷ 1 ∷ 2 ∷ 3 ∷ 4 ∷ 5 ∷ 6 ∷ 7 ∷ 8 ∷ 9 ∷ []) ∷ []) none none ∷ [];
}

playing_track_lem :
    IsInside playing_track 2 3 5 4 ((0 ∷ 1 ∷ 2 ∷ 3 ∷ 4 ∷ 5 ∷ 6 ∷ 7 ∷ 8 ∷ 9 ∷ []) ∷ [])
unfolding new_track
playing_track_lem = record {
  some_size = omega arith;
  begun = omega arith;
  inside = omega arith;
  rect = (refl, tt);
  covered = omega arith;
  int_size = omega arith;
  int_end = omega arith;
}

pump-inside_example :
    pump 0 2 playing_track
    ≡ done (
      record playing_track { current = some 0; next_index = pos 6 },
      given (some ((5 ∷ 6 ∷ []) ∷ [])),
    )
unfolding new_track node clips_end add64 wrap64 ◌+ℤ◌
pump-inside_example =
    pump-inside playing_track 2 3 5 4 ((0 ∷ 1 ∷ 2 ∷ 3 ∷ 4 ∷ 5 ∷ 6 ∷ 7 ∷ 8 ∷ 9 ∷ []) ∷ []) none none
      playing_track_lem 0 0 refl refl refl 7 refl (omega arith) 0

-- The same clip at 1, before it is played.
abbrev new_playing_track : Track ℕ
new_playing_track = record (new_track "track" 2 1) {
  first = some 0;
  last = some 0;
  heap = clip_at 1 3 5 ((0 ∷ 1 ∷ 2 ∷ 3 ∷ 4 ∷ 5 ∷ 6 ∷ 7 ∷ 8 ∷ 9 ∷ []) ∷ []) none none ∷ [];
}

new_playing_track_lem :
    IsStarting new_playing_track 1 3 5 0 ((0 ∷ 1 ∷ 2 ∷ 3 ∷ 4 ∷ 5 ∷ 6 ∷ 7 ∷ 8 ∷ 9 ∷ []) ∷ [])
unfolding new_track
new_playing_track_lem = record {
  late = omega arith;
  here = omega arith;
  goes_on = omega arith;
  some_channel = omega arith;
  channels = refl;
  rect = (refl, tt);
  covered = omega arith;
  int_size = omega arith;
  int_end = omega arith;
}

pump-starting_example :
    (r : List (List ℕ)) × (pump 0 2 new_playing_track
      ≡ done (record new_playing_track { current = some 0; next_index = pos 2 }, given (some r)))
    × IsOffset new_playing_track 1 3 5 0 ((0 ∷ 1 ∷ 2 ∷ 3 ∷ 4 ∷ 5 ∷ 6 ∷ 7 ∷ 8 ∷ 9 ∷ []) ∷ []) 0 r
unfolding new_track node clips_end current_at clip_after add64 wrap64 ◌+ℤ◌
pump-starting_example =
    pump-starting new_playing_track 1 3 5 0 ((0 ∷ 1 ∷ 2 ∷ 3 ∷ 4 ∷ 5 ∷ 6 ∷ 7 ∷ 8 ∷ 9 ∷ []) ∷ []) none
      none new_playing_track_lem 0 0 refl refl refl 6 refl (omega arith) 0
