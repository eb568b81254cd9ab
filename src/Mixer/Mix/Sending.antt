-- ===== src/Mixer/Mix/Sending.antt =====
-- mixer/mixer.go: `send` sends the frames that are complete, and no other.
use phono.Base.{
  ℕ, zero, suc, ◌+◌, ◌≤◌, ◌<◌, ◌≡◌, refl, sym, ap, ◌∙◌, true, false, List, [], ◌∷◌, ◌++◌, Option,
  none, some, length, get_elem?, ltb, arith, inl, inr, Bool-cases, ltb→lt, get_elem?-lt,
  get_elem?-append_left, get_elem?-append_right, length-append,
}
use phono.Base.Outcome.{done}
use phono.Buffer.{Buffer}
use phono.Mixer.Frames.{Frame, deref, send, is_complete}
use phono.Mixer.Mix.Waiting.{Live, waiting}
use phono.Mixer.Mix.Invariant.{IsFrame, AreFrames, AreSent, IsStalled}

module _ {A : Type 0} where
  pub is_complete_lem :
      {live : Live} {longest n k : ℕ} (f : Frame A)
      → IsFrame live longest n k f
      → waiting k live ≡ 0
      → 1 ≤ length live
      → is_complete f ≡ true
  is_complete_lem f h w l = ground arith

  pub is_complete-waiting :
      {live : Live} {longest n k : ℕ} (f : Frame A)
      → IsFrame live longest n k f
      → 1 ≤ waiting k live
      → is_complete f ≡ false
  is_complete-waiting f h w = ground arith

  -- An incomplete frame is not sent.
  pub send_incomplete :
      (fuel p : ℕ) (f : Frame A) (heap : List (Frame A)) (out : List (List (Buffer A)))
      → get_elem? heap p ≡ some f
      → is_complete f ≡ false
      → send (suc fuel) none (some p) heap out ≡ done (some p, out)
  unfolding send deref
  send_incomplete fuel p f heap out e h = rw (e, h) refl

  send_complete :
      (fuel p : ℕ) (f : Frame A) (heap : List (Frame A)) (out : List (List (Buffer A)))
      → get_elem? heap p ≡ some f
      → is_complete f ≡ true
      → send (suc fuel) none (some p) heap out ≡ send fuel none f.next heap (out ++ f.buffers ∷ [])
  unfolding send deref
  send_complete fuel p f heap out e h = rw (e, h) refl

  send-none :
      (fuel : ℕ) (heap : List (Frame A)) (out : List (List (Buffer A)))
      → 1 ≤ fuel
      → send fuel none none heap out ≡ done (none, out)
  unfolding send
  send-none zero heap out h = absurd (omega arith)
  send-none (suc fuel) heap out h = refl

  abbrev buffers_of : Option (Frame A) → Option (List (Buffer A))
  buffers_of none = none
  buffers_of (some f) = some f.buffers

  AreSent-append :
      (live : Live) (heap : List (Frame A)) (out : List (List (Buffer A))) (f : Frame A)
      → get_elem? heap (length out) ≡ some f
      → waiting (length out) live ≡ 0
      → AreSent live heap out
      → AreSent live heap (out ++ f.buffers ∷ [])
  AreSent-append live heap out f e w sent k g e' lt =
      let longer = length-append out (f.buffers ∷ []) in
      elim (Bool-cases (ltb k (length out))) [
        | inl before ↦ (
          get_elem?-append_left out (f.buffers ∷ []) k (ltb→lt k (length out) before)
              ∙ (sent k g e' (ltb→lt k (length out) before)).0,
          (sent k g e' (ltb→lt k (length out) before)).1,
        )
        | inr last ↦
            let same : k ≡ length out = ground (arith, longer) in
            (
              get_elem?-append_right out (f.buffers ∷ []) k 0 (omega arith)
                  ∙ ap buffers_of (sym e ∙ ap (get_elem? heap) (sym same) ∙ e'),
              rw same w,
            )
      ]

  abbrev pub Sends : Live → List (Frame A) → List (List (Buffer A)) → ℕ → Option ℕ → Type 0
  Sends live heap out fuel p =
      (p' : Option ℕ) × (out' : List (List (Buffer A))) × (send fuel none p heap out
        ≡ done (p', out'))
      × AreSent live heap out'
      × IsStalled live (length heap) (length out')
      × (length out ≤ length out')

  pub send_lem :
      (fuel k : ℕ) (live : Live) (longest : ℕ) (heap : List (Frame A))
      (out : List (List (Buffer A)))
      → AreFrames live longest heap
      → 1 ≤ length live
      → length out ≡ k
      → k < length heap
      → length heap < fuel + k
      → AreSent live heap out
      → Sends live heap out fuel (some k)
  send_lem zero k live longest heap out hf hl hk lt hfuel sent = absurd (omega arith)
  send_lem (suc fuel) k live longest heap out hf hl hk lt hfuel sent =
      let (f, e) = get_elem?-lt heap k lt in
      let frame = hf k f e in
      elim (Bool-cases (ltb 0 (waiting k live))) [
        | inl more ↦ (
          some k,
          out,
          send_incomplete fuel k f heap out e
              (is_complete-waiting f frame (ltb→lt 0 (waiting k live) more)),
          sent,
          (omega arith, λ _. rw hk (ltb→lt 0 (waiting k live) more)),
          omega arith,
        )
        | inr complete ↦
            let w : waiting k live ≡ 0 = ground arith in
            let sent' = AreSent-append live heap out f (rw hk e) (rw hk w) sent in
            let step = send_complete fuel k f heap out e (is_complete_lem f frame w hl) in
            let longer = length-append out (f.buffers ∷ []) in
            elim (Bool-cases (ltb (suc k) (length heap))) [
              | inl more ↦
                  let next : f.next ≡ some (suc k) = frame.next ∙ rw more refl in
                  let (p', out', e', s', st, le) =
                    send_lem fuel (suc k) live longest heap (out ++ f.buffers ∷ []) hf hl
                      (omega arith) (ltb→lt (suc k) (length heap) more) (omega arith) sent' in
                  (
                    p',
                    out',
                    step ∙ ap (λ n. send fuel none n heap (out ++ f.buffers ∷ [])) next ∙ e',
                    s',
                    st,
                    omega arith,
                  )
              | inr last ↦
                  let next : f.next ≡ none = frame.next ∙ rw last refl in
                  let end : suc k ≡ length heap = ground arith in
                  (
                    none,
                    out ++ f.buffers ∷ [],
                    step
                        ∙ ap (λ n. send fuel none n heap (out ++ f.buffers ∷ [])) next
                        ∙ send-none fuel heap (out ++ f.buffers ∷ []) (omega arith),
                    sent',
                    (omega arith, λ less. absurd (omega arith)),
                    omega arith,
                  )
            ]
      ]
