-- ===== src/Tests/LinkTests.antt =====
-- track/track.go: a clip that is put into a track and overlaps others.
use phono.Base.{ℕ, ◌≡◌, refl, List, [], ◌∷◌, none, some, arith}
use phono.Base.Int.{pos}
use phono.Base.Outcome.{done}
use phono.Buffer.{Buffer, clip}
use phono.Track.{Track, new_track, add_clip}
use phono.Track.Playing.{clip_at}
use phono.Track.Pieces.{Piece, clip_of, Apart}
use phono.Track.Timeline.{added}
use phono.Track.Placing.{IsTrack}
use phono.Track.Adding.{add_clip_lem}
use phono.Track.Built.{add_clips, added_all, add_clips-new_track}

abbrev samples : Buffer ℕ
samples = some ((1 ∷ 2 ∷ 3 ∷ 4 ∷ 5 ∷ 6 ∷ 7 ∷ 8 ∷ 9 ∷ []) ∷ [])

-- Clips at 1 and 9 in a track.
abbrev linked_track : Track ℕ
linked_track = record (new_track "track" 2 1) {
  first = some 0;
  last = some 1;
  heap =
      clip_at 1 0 6 ((1 ∷ 2 ∷ 3 ∷ 4 ∷ 5 ∷ 6 ∷ 7 ∷ 8 ∷ 9 ∷ []) ∷ []) (some 1) none
      ∷ clip_at 9 0 2 ((1 ∷ 2 ∷ 3 ∷ 4 ∷ 5 ∷ 6 ∷ 7 ∷ 8 ∷ 9 ∷ []) ∷ []) none (some 0)
      ∷ [];
}

abbrev linked_pieces : List (Piece ℕ)
linked_pieces =
    record { at = 1; len = 6; start = pos 0; buffer = samples }
    ∷ record { at = 9; len = 2; start = pos 0; buffer = samples }
    ∷ []

linked_track_lem : IsTrack linked_track linked_pieces
unfolding new_track
linked_track_lem = record {
  clips = 0 ∷ 1 ∷ [];
  linked = (
    refl,
    clip_at 1 0 6 ((1 ∷ 2 ∷ 3 ∷ 4 ∷ 5 ∷ 6 ∷ 7 ∷ 8 ∷ 9 ∷ []) ∷ []) (some 1) none,
    refl,
    refl,
    (
      refl,
      clip_at 9 0 2 ((1 ∷ 2 ∷ 3 ∷ 4 ∷ 5 ∷ 6 ∷ 7 ∷ 8 ∷ 9 ∷ []) ∷ []) none (some 0),
      refl,
      refl,
      (refl, refl),
    ),
  );
  distinct = (refl, (refl, tt));
  enough = omega arith;
  holds = (refl, (refl, tt));
}

-- A clip of one sample at 3 splits the first one.
abbrev splitting : Piece ℕ
splitting = record { at = 3; len = 1; start = pos 4; buffer = samples }

abbrev split_pieces : List (Piece ℕ)
split_pieces =
    record { at = 1; len = 2; start = pos 0; buffer = samples }
    ∷ splitting
    ∷ record { at = 4; len = 2; start = pos 7; buffer = samples }
    ∷ record { at = 9; len = 2; start = pos 0; buffer = samples }
    ∷ []

added_test : added splitting linked_pieces ≡ split_pieces
unfolding clip
added_test = refl

add_clip_lem_example :
    (t : Track ℕ) × (add_clip 2 (pos 3) (clip_of splitting) linked_track ≡ done t)
    × IsTrack t (added splitting linked_pieces)
    × Apart 0 (added splitting linked_pieces)
add_clip_lem_example =
    add_clip_lem 0 splitting linked_track linked_pieces linked_track_lem
      (omega arith, omega arith, (omega arith, omega arith, tt)) (omega arith) (omega arith)
      (omega arith)

-- The clip that splits comes last.
abbrev new_pieces : List (Piece ℕ)
new_pieces =
    record { at = 9; len = 2; start = pos 0; buffer = samples }
    ∷ record { at = 1; len = 6; start = pos 0; buffer = samples }
    ∷ splitting
    ∷ []

added_all_test : added_all new_pieces [] ≡ split_pieces
unfolding clip
added_all_test = refl

add_clips-new_track_example :
    (t : Track ℕ) × (add_clips new_pieces (new_track "track" 2 1) ≡ done t)
    × IsTrack t (added_all new_pieces [])
    × Apart 0 (added_all new_pieces [])
add_clips-new_track_example =
    add_clips-new_track "track" 2 1 new_pieces
      ((omega arith, omega arith), ((omega arith, omega arith), ((omega arith, omega arith), tt)))
