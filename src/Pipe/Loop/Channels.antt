-- ===== src/Pipe/Loop/Channels.antt =====
-- pipe/state.go: the error channels. What a target's channel holds while it is waited for, and what
-- `dismiss` and `handle` do to the list of channels.
use phono.Base.{
  ℕ, ◌≡◌, ◌≢◌, refl, sym, ◌∙◌, ◌⊎◌, inl, inr, true, false, List, [], ◌∷◌, ◌++◌, Option, none, some,
  length, get_elem?, set, arith, All, Option-cases, lt_of_get_elem?, length-append,
  get_elem?-append_left, get_elem?-append_right, get_elem?-set_self, get_elem?-set_ne, set-set,
}
use native.Mathlib.Decide.{ℕ_discrete, dec_lt}
use phono.Base.Outcome.{done}
use phono.Pipe.Machine.{Error, Target, ErrChan, new_chan, send, close_chan, dismiss, handle}
use phono.Pipe.Loop.{no_target}

-- A receiver that waits on such a channel comes back: an error is there, or the channel is closed.
abbrev pub IsAnswered : ErrChan → Type 0
IsAnswered c = (c.is_closed ≡ true) ⊎ (c.sent ≢ [])

abbrev pub In : ℕ → List ℕ → Type 0
In k [] = ⊥
In k (t ∷ ts) = (k ≡ t) ⊎ In k ts

-- The channels of a list are as they were made, and every other channel is answered.
pub record Books (errcs : List ErrChan) (ts : List ℕ) : Type 0 where
  pub waiting : All (λ n. get_elem? errcs n ≡ some new_chan) ts
  pub answered : (k : ℕ) (c : ErrChan) → get_elem? errcs k ≡ some c → In k ts ⊎ IsAnswered c

abbrev pub waiting_on : Option ℕ → List ℕ
waiting_on none = []
waiting_on (some n) = n ∷ []

abbrev closed_chan : List Error → ErrChan
closed_chan errs = record { sent = errs; is_closed = true }

abbrev failed_chan : Error → ErrChan
failed_chan err = record { sent = err ∷ []; is_closed = false }

close_open :
    (errcs : List ErrChan) (n : ℕ) (errs : List Error)
    → get_elem? errcs n ≡ some (record { sent = errs; is_closed = false })
    → close_chan errcs n ≡ done (set errcs n (closed_chan errs))
unfolding close_chan
close_open errcs n errs h = rw (h, close_chan)

send_new :
    (errcs : List ErrChan) (n : ℕ) (err : Error)
    → get_elem? errcs n ≡ some new_chan
    → send errcs n err ≡ done (set errcs n (failed_chan err))
unfolding send
send_new errcs n err h = rw (h, send)

All-set :
    (errcs : List ErrChan) (n : ℕ) (c : ErrChan) (ts : List ℕ)
    → ¬ In n ts
    → All (λ k. get_elem? errcs k ≡ some new_chan) ts
    → All (λ k. get_elem? (set errcs n c) k ≡ some new_chan) ts
All-set errcs n c [] h a = tt
All-set errcs n c (t ∷ ts) h a =
    (get_elem?-set_ne errcs c (λ e. h (inl e)) ∙ a.0, All-set errcs n c ts (λ i. h (inr i)) a.1)

-- A waiting channel that is answered is off the list.
Books-set :
    (errcs : List ErrChan) (n : ℕ) (c : ErrChan) (ts : List ℕ)
    → ¬ In n ts
    → IsAnswered c
    → Books errcs (n ∷ ts)
    → Books (set errcs n c) ts
Books-set errcs n c ts h a b = record {
  waiting = All-set errcs n c ts h b.waiting.1;
  answered = λ k d e. elim (ℕ_discrete n k) [
    | yes same ↦
        let here = get_elem?-set_self errcs n c (lt_of_get_elem? errcs n b.waiting.0) in
        let this : c ≡ d = cc in inr (rw (← this) a)
    | no other ↦ elim (b.answered k d (sym (get_elem?-set_ne errcs c other) ∙ e)) [
      | inl (inl p) ↦ absurd (other (sym p))
      | inl (inr i) ↦ inl i
      | inr done_with ↦ inr done_with
    ]
  ];
}

All-alloc :
    (errcs : List ErrChan) (ts : List ℕ)
    → All (λ k. get_elem? errcs k ≡ some new_chan) ts
    → All (λ k. get_elem? (errcs ++ new_chan ∷ []) k ≡ some new_chan) ts
All-alloc errcs [] a = tt
All-alloc errcs (t ∷ ts) a = (
  get_elem?-append_left errcs (new_chan ∷ []) t (lt_of_get_elem? errcs t a.0) ∙ a.0,
  All-alloc errcs ts a.1,
)

-- A new channel is one more to wait for.
Books-alloc :
    (errcs : List ErrChan) (ts : List ℕ)
    → Books errcs ts
    → Books (errcs ++ new_chan ∷ []) (length errcs ∷ ts)
Books-alloc errcs ts b = record {
  waiting = (
    get_elem?-append_right errcs (new_chan ∷ []) (length errcs) 0 (omega arith),
    All-alloc errcs ts b.waiting,
  );
  answered = λ k d e. elim (dec_lt k (length errcs)) [
    | yes old ↦
        elim (b.answered k d (sym (get_elem?-append_left errcs (new_chan ∷ []) k old) ∙ e)) [
          | inl i ↦ inl (inr i)
          | inr a ↦ inr a
        ]
    | no new ↦
        let bound = lt_of_get_elem? (errcs ++ new_chan ∷ []) k e in
        inl (inl (omega (arith, length-append errcs (new_chan ∷ []))))
  ];
}

Books-swap : (errcs : List ErrChan) (a b : ℕ) → Books errcs (a ∷ b ∷ []) → Books errcs (b ∷ a ∷ [])
Books-swap errcs a b h = record {
  waiting = (h.waiting.1.0, (h.waiting.0, tt));
  answered = λ k d e. elim (h.answered k d e) [
    | inl (inl p) ↦ inl (inr (inl p))
    | inl (inr (inl p)) ↦ inl (inl p)
    | inl (inr (inr f)) ↦ absurd f
    | inr x ↦ inr x
  ];
}

-- With no channel there is nothing to dismiss.
pub dismiss-none :
    (t : Target) (errcs : List ErrChan) → t.errc ≡ none → dismiss t errcs ≡ done (t, errcs)
unfolding dismiss
dismiss-none t errcs e = ground arith

-- `dismiss` closes the target's channel, if it has one, and forgets it.
pub dismiss_lem :
    (t : Target) (errcs : List ErrChan) (ts : List ℕ)
    → ((n : ℕ) → t.errc ≡ some n → ¬ In n ts)
    → Books errcs (waiting_on t.errc ++ ts)
    → (t' : Target) × (errcs' : List ErrChan) × (dismiss t errcs ≡ done (t', errcs'))
      × (t'.errc ≡ none)
      × Books errcs' ts
unfolding dismiss
dismiss_lem t errcs ts h b = elim (Option-cases t.errc) [
  | inl e ↦ (t, errcs, dismiss-none t errcs e, e, rw e at b)
  | inr (n, e) ↦
      let b' : Books errcs (n ∷ ts) = rw e at b in
      (
        no_target,
        set errcs n (closed_chan []),
        rw (e, dismiss) (rw (close_open errcs n [] b'.waiting.0)),
        refl,
        Books-set errcs n (closed_chan []) ts (h n e) (inl refl) b',
      )
]

-- A call that is accepted: its channel is new, the target before it is dismissed.
pub accept_lem :
    (t : Target) (errcs : List ErrChan)
    → Books errcs (waiting_on t.errc)
    → (t' : Target) × (errcs' : List ErrChan) × (dismiss t (errcs ++ new_chan ∷ [])
        ≡ done (t', errcs'))
      × Books errcs' (length errcs ∷ [])
accept_lem t errcs b = elim (Option-cases t.errc) [
  | inl e ↦ (
    t,
    errcs ++ new_chan ∷ [],
    dismiss-none t (errcs ++ new_chan ∷ []) e,
    Books-alloc errcs [] (rw e at b),
  )
  | inr (n, e) ↦
      let b' : Books errcs (n ∷ []) = rw e at b in
      let below = lt_of_get_elem? errcs n b'.waiting.0 in
      let both = Books-swap _ (length errcs) n (Books-alloc errcs (n ∷ []) b') in
      let (t', errcs', closes, _, left) =
        dismiss_lem t (errcs ++ new_chan ∷ []) (length errcs ∷ [])
          (λ k p. elim [ inl q ↦ let same : n ≡ k = cc in absurd (omega arith) | inr f ↦ f ])
          (rw e both) in
      (t', errcs', closes, left)
]

-- A call that is refused: its channel is new, and the error is put in it.
pub refuse_lem :
    (t : Target) (errcs : List ErrChan) (err : Error) (ts : List ℕ)
    → t.errc ≡ some (length errcs)
    → Books errcs ts
    → ¬ In (length errcs) ts
    → (errcs' : List ErrChan) × (handle t err (errcs ++ new_chan ∷ []) ≡ done errcs')
      × Books errcs' ts
unfolding handle
refuse_lem t errcs err ts e b h =
    let b' = Books-alloc errcs ts b in
    (
      set (errcs ++ new_chan ∷ []) (length errcs) (failed_chan err),
      rw (e, handle) (send_new _ (length errcs) err b'.waiting.0),
      Books-set _ (length errcs) (failed_chan err) ts h (inr (λ x. cc)) b',
    )

-- An error for the target itself, which is then dismissed.
pub fail_lem :
    (t : Target) (errcs : List ErrChan) (err : Error) (n : ℕ)
    → t.errc ≡ some n
    → Books errcs (n ∷ [])
    → (errcs' : List ErrChan) × (errcs'' : List ErrChan) × (handle t err errcs ≡ done errcs')
      × (dismiss t errcs' ≡ done (no_target, errcs''))
      × Books errcs'' []
unfolding handle dismiss
fail_lem t errcs err n e b =
    let at = lt_of_get_elem? errcs n b.waiting.0 in
    let sent = set errcs n (failed_chan err) in
    (
      sent,
      set sent n (closed_chan (err ∷ [])),
      rw (e, handle) (send_new errcs n err b.waiting.0),
      rw (e, dismiss)
          (rw (close_open sent n (err ∷ []) (get_elem?-set_self errcs n (failed_chan err) at))),
      rw (set-set errcs n (failed_chan err) (closed_chan (err ∷ [])))
          (Books-set errcs n (closed_chan (err ∷ [])) [] (λ f. f) (inl refl) b),
    )
