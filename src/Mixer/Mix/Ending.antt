-- ===== src/Mixer/Mix/Ending.antt =====
-- mixer/mixer.go: an input that ends, when no input that ended before had sent more.
use phono.Base.{
  ℕ, suc, ◌≤◌, ◌<◌, ◌≡◌, sym, ap, ◌∙◌, List, Option, none, some, String, length, ltb, arith, inl,
  inr, Bool-cases, ltb→lt, get_elem?-lt,
}
use phono.Base.Dict.{lookup, delete, IsMap}
use phono.Buffer.{Buffer}
use phono.Base.Outcome.{done}
use phono.Mixer.Frames.{Frame, send}
use phono.Mixer.Mix.Waiting.{
  Live, waiting, waiting-le, waiting_mono, waiting-lookup, waiting-delete, length-delete,
}
use phono.Mixer.Mix.Chain.{Resets}
use phono.Mixer.Mix.Invariant.{next_of, AreFrames, AreSent, IsStalled}
use phono.Mixer.Mix.Sending.{send_lem, send_incomplete, is_complete-waiting}

module _ {A : Type 0} (id : String) (c : ℕ) (live : Live) (longest : ℕ)
    (heap heap' : List (Frame A)) (distinct : IsMap live) (is_live : lookup id live ≡ some c)
    (fair : longest ≤ c) (lt : c < length heap)
    (resets : Resets heap c (length (delete id live)) heap') where
  abbrev pub left : Live
  left = delete id live

  pub end_frames : AreFrames live longest heap → AreFrames left c heap'
  end_frames frames k g is =
      let r = resets.1 k g is in
      let frame = frames k r.old r.found in
      let fewer = waiting-delete k c id live distinct is_live in
      let inputs = length-delete c id live distinct is_live in
      let buffers : length g.buffers ≡ length r.old.buffers = ap length r.same_buffers in
      let expectation = r.expectation in
      let total = frame.total in
      let enough = frame.enough in
      let fresh = frame.fresh in
      record {
        next = r.same_next ∙ frame.next ∙ ap (next_of k) (sym resets.0);
        total = ground arith;
        enough = ground arith;
        fresh = λ le. ground arith;
      }

  pub end_sent : (out : List (List (Buffer A))) → AreSent live heap out → AreSent left heap' out
  end_sent out sent k g is less =
      let r = resets.1 k g is in
      let (there, none_left) = sent k r.old r.found less in
      let fewer = waiting-delete k c id live distinct is_live in
      (there ∙ ap some (sym r.same_buffers), omega arith)

  -- What is sent then. With the last input the frames before its own have all been sent.
  abbrev pub EndSends : List (List (Buffer A)) → Type 0
  EndSends out =
      (p' : Option ℕ) × (out' : List (List (Buffer A))) × (send (suc (length heap')) none (some c)
          heap' out
        ≡ done (p', out'))
      × AreSent left heap' out'
      × (1 ≤ length left → IsStalled left (length heap') (length out'))
      × (length left ≡ 0 → c ≤ length out')
      × (length out' ≤ length heap')

  pub end-Sends :
      (out : List (List (Buffer A)))
      → AreFrames live longest heap
      → AreSent live heap out
      → IsStalled live (length heap) (length out)
      → EndSends out
  end-Sends out frames sent stalled =
      let frames' = end_frames frames in
      let sent' = end_sent out sent in
      let size = resets.0 in
      let (f, is) = get_elem?-lt heap' c (omega arith) in
      let frame = frames' c f is in
      let fresh : f.expected ≡ length left = frame.fresh (omega arith) in
      let (g, was) = get_elem?-lt heap c lt in
      let waits = waiting-lookup c c id live is_live (omega arith) in
      let here = waiting-delete c c id live distinct is_live in
      let there = waiting-delete (length out) c id live distinct is_live in
      let few = waiting-le (length out) left in
      let caught_up = λ (less : c < length out). (sent c g was less).1 in
      let up_to_date : length out ≤ c = ground arith in
      let still = send_incomplete (length heap') c f heap' out is in
      elim (Bool-cases (ltb 0 (waiting c left))) [
        | inl more ↦
            let some_left = waiting-le c left in
            let more' = ltb→lt 0 (waiting c left) more in
            (
              some c,
              out,
              still (is_complete-waiting f frame more'),
              sent',
              λ h. (omega arith, λ less. ground (arith, stalled.1)),
              λ h. absurd (omega arith),
              omega arith,
            )
        | inr complete ↦ elim (Bool-cases (ltb 0 (length left))) [
          | inl more ↦
              let same : length out ≡ c =
                ground (arith, waiting_mono (length out) c left up_to_date, stalled.1) in
              let (p', out', e, s, st, le) =
                send_lem (suc (length heap')) c left c heap' out frames'
                  (ltb→lt 0 (length left) more) same (omega arith) (omega arith) sent' in
              (p', out', e, s, λ h. st, λ h. omega arith, st.0)
          | inr nobody ↦ (
            some c,
            out,
            still (ground arith),
            sent',
            λ h. absurd (ground arith),
            λ h. ground (arith, stalled.1),
            omega arith,
          )
        ]
      ]
