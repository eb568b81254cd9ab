-- ===== src/Mixer/Mix/Messages.antt =====
-- mixer/mixer.go: a buffer that arrives, and the frame behind the last.
use phono.Base.{
  ℕ, suc, ◌≤◌, ◌<◌, ◌≡◌, sym, ap, ◌∙◌, List, [], ◌∷◌, ◌++◌, some, String, length, get_elem?, set,
  ltb, arith, inl, inr, Bool-cases, ltb→lt, get_elem?-set_self, length-append, length-set,
  lt_of_get_elem?,
}
use phono.Base.Dict.{lookup, insert}
use phono.Buffer.{Buffer}
use phono.Mixer.Frames.{Frame}
use phono.Mixer.Mix.Waiting.{
  Live, waiting, waiting-le, waiting_mono, waiting-lookup, waiting-insert, length-insert,
}
use phono.Mixer.Mix.Chain.{get-set}
use phono.Mixer.Mix.Invariant.{next_of, AreFrames, AreSent, IsStalled}
use phono.Mixer.Mix.Sending.{Sends, send_lem, send_incomplete, is_complete-waiting}

module _ {A : Type 0} (id : String) (c : ℕ) (b : Buffer A) (live : Live) (longest : ℕ)
    (heap : List (Frame A)) (f : Frame A) (is_live : lookup id live ≡ some c)
    (found : get_elem? heap c ≡ some f) where
  abbrev pub later : Live
  later = insert id (suc c) live

  -- The frame with the buffer, and the store with that frame.
  abbrev pub filled : Frame A
  filled = record f { buffers = f.buffers ++ b ∷ [] }

  abbrev pub after : List (Frame A)
  after = set heap c filled

  pub buffer_frames : AreFrames live longest heap → AreFrames later longest after
  buffer_frames frames k g is =
      let count = waiting-insert k c id live is_live in
      let inputs = length-insert c (suc c) id live is_live in
      let size = length-set heap c filled in
      let longer = length-append f.buffers (b ∷ []) in
      elim (get-set heap c filled k g is) [
        | inl (same, written) ↦
            let old = frames c f found in
            let n : g.next ≡ f.next = ap (λ (x : Frame A). x.next) written in
            let x : g.expected ≡ f.expected = ap (λ (x : Frame A). x.expected) written in
            let l : length g.buffers ≡ length (f.buffers ++ b ∷ []) =
              ap (λ (x : Frame A). length x.buffers) written in
            record {
              next =
                  n
                  ∙ old.next
                  ∙ ap (λ j. next_of j (length heap)) (sym same)
                  ∙ ap (next_of k) (sym size);
              total = rw same (ground arith);
              enough = omega arith;
              fresh = λ le. x ∙ old.fresh (ground arith) ∙ sym inputs;
            }
        | inr (other, before) ↦
            let old = frames k g before in
            record {
              next = old.next ∙ ap (next_of k) (sym size);
              total = ground arith;
              enough = omega arith;
              fresh = λ le. old.fresh le ∙ sym inputs;
            }
      ]

  pub buffer_sent : (out : List (List (Buffer A))) → AreSent live heap out → AreSent later after out
  buffer_sent out sent k g is lt =
      let count = waiting-insert k c id live is_live in
      elim (get-set heap c filled k g is) [
        | inl (same, written) ↦
            let waits = waiting-lookup c c id live is_live (omega arith) in
            let none_left = (sent c f found (rw (← same) lt)).1 in absurd (omega arith)
        | inr (other, before) ↦
            ((sent k g before lt).0, let none_left = (sent k g before lt).1 in ground arith)
      ]

  pub buffer-Sends :
      (out : List (List (Buffer A)))
      → AreFrames live longest heap
      → AreSent live heap out
      → IsStalled live (length heap) (length out)
      → Sends later after out (suc (length after)) (some c)
  buffer-Sends out frames sent stalled =
      let frames' = buffer_frames frames in
      let sent' = buffer_sent out sent in
      let size = length-set heap c filled in
      let lt = lt_of_get_elem? heap c found in
      let is = get_elem?-set_self heap c filled lt in
      let waits = waiting-lookup c c id live is_live (omega arith) in
      let inputs = length-insert c (suc c) id live is_live in
      let most = waiting-le c live in
      let here = waiting-insert c c id live is_live in
      let there = waiting-insert (length out) c id live is_live in
      let caught_up = λ (less : c < length out). (sent c f found less).1 in
      let up_to_date : length out ≤ c = ground arith in
      elim (Bool-cases (ltb 0 (waiting c later))) [
        | inl more ↦ (
          some c,
          out,
          send_incomplete (length after) c filled after out is
              (is_complete-waiting filled (frames' c filled is) (ltb→lt 0 (waiting c later) more)),
          sent',
          (omega arith, λ less. ground (arith, stalled.1, ltb→lt 0 (waiting c later) more)),
          omega arith,
        )
        | inr complete ↦
            let same : length out ≡ c =
              ground (arith, waiting_mono (length out) c later up_to_date, stalled.1) in
            send_lem (suc (length after)) c later longest after out frames' (omega arith) same
              (omega arith) (omega arith) sent'
      ]
