-- ===== src/Pipe/Loop/Invariant.antt =====
-- pipe/state.go: what holds of the machine between two rounds.
use phono.Base.{
  ℕ, ◌≡◌, refl, inl, inr, true, false, ◌||◌, List, [], ◌∷◌, ◌++◌, Option, none, some, length, arith,
  Option-cases, lt_of_get_elem?,
}
use mathlib.Core.List.{append-nil}
use phono.Base.Outcome.{Outcome, done, ◌>>=◌}
use phono.Pipe.Params.{World}
use phono.Pipe.Params.Laws.{IsSound}
use phono.Pipe.Loop.Confirmed.{IsFed}
use phono.Pipe.Message.{Signal, live, Pipe}
use phono.Pipe.Machine.{
  State, ready, running, pausing, paused, Error, Target, ErrChan, Machine, same, is_idle, new_chan,
}
use phono.Pipe.Loop.{no_target, reached, enter, proceed, answer}
use phono.Pipe.Loop.Channels.{In, Books, waiting_on, dismiss_lem, accept_lem, refuse_lem}

-- In an active state somebody waits for the state to be reached, and the run can be interrupted. In
-- an idle state nobody waits. A run that is paused can be interrupted.
abbrev pub Fits : Option State → Target → Signal → Type 0
Fits none t c = t.errc ≡ none
Fits (some ready) t c = t.errc ≡ none
Fits (some running) t c = ((n : ℕ) × (t.errc ≡ some n)) × (t.state ≡ some ready) × (c ≡ live)
Fits (some pausing) t c = ((n : ℕ) × (t.errc ≡ some n)) × (t.state ≡ some paused) × (c ≡ live)
Fits (some paused) t c = (t.errc ≡ none) × (c ≡ live)

pub same_refl : (s : State) → same s s ≡ true
same_refl ready = refl
same_refl running = refl
same_refl pausing = refl
same_refl paused = refl

module _ {A C : Type 0} where
  pub record Inv (m : Machine A C) : Type 0 where
    pub fits : Fits m.state m.target m.pipe.cancel
    pub books : Books m.errcs (waiting_on m.target.errc)
    pub params : IsSound m.pipe.params
    pub feedback : IsFed m.pipe.feedback

  -- The code returns, and the invariant holds again.
  abbrev pub Keeps : Outcome (Machine A C) → Type 0
  Keeps r = (m : Machine A C) × (r ≡ done m) × Inv m

  -- The machine while it handles a call: the pipe as the transition leaves it, and a new channel.
  abbrev pub called : Machine A C → Pipe C → World C → Machine A C
  called m p w = record m { errcs = m.errcs ++ new_chan ∷ []; pipe = p; world = w }

  abbrev pub goal_of : Machine A C → Option State → Target
  goal_of m goal = record { state = goal; errc = some (length m.errcs) }

  -- The number of the new channel is not the target's.
  pub fresh_lem : (m : Machine A C) → Inv m → ¬ In (length m.errcs) (waiting_on m.target.errc)
  fresh_lem m v i = elim (Option-cases m.target.errc) [
    | inl e ↦ rw e at i
    | inr (n, e) ↦
        let b : Books m.errcs (n ∷ []) = rw e at v.books in
        let below = lt_of_get_elem? m.errcs n b.waiting.0 in
        let j : In (length m.errcs) (n ∷ []) = rw e at i in
        elim j [ inl same_number ↦ absurd (omega arith) | inr f ↦ f ]
  ]

  -- A call that is accepted and leads to an active state.
  pub accepted :
      (m : Machine A C) (s next : State) (p : Pipe C) (w : World C) (goal : Option State)
      → Inv m
      → same s next ≡ false
      → is_idle next ≡ false
      → Fits (some next) (goal_of m goal) p.cancel
      → IsSound p.params
      → IsFed p.feedback
      → Keeps (do m' ← answer none (goal_of m goal) (called m p w); proceed s (some next) m')
  unfolding answer proceed enter
  accepted m s next p w goal v other active fits ps fb =
      let (t', errcs', e, b) = accept_lem m.target m.errcs v.books in
      (
        record m {
          pipe = p;
          world = w;
          errcs = errcs';
          target = goal_of m goal;
          state = some next;
        },
        rw (e, other, active),
        record { fits = fits; books = b; params = ps; feedback = fb },
      )

  -- `Close`, where no error is left over: the new channel and the one before are closed.
  pub closed :
      (m : Machine A C) (s : State) (p : Pipe C) (w : World C)
      → Inv m
      → IsSound p.params
      → IsFed p.feedback
      → Keeps (do m' ← answer none (goal_of m none) (called m p w); proceed s none m')
  unfolding answer proceed
  closed m s p w v ps fb =
      let (t', errcs', e, b) = accept_lem m.target m.errcs v.books in
      let (t'', errcs'', e', gone, b') = dismiss_lem (goal_of m none) errcs' [] (λ n q f. f) b in
      (
        record m { pipe = p; world = w; errcs = errcs''; target = t''; state = none },
        rw (e, e'),
        record { fits = gone; books = rw gone b'; params = ps; feedback = fb },
      )

  -- `Close`, where an error is left over: it goes to the new channel, and the one before is closed.
  pub closed_failed :
      (m : Machine A C) (s : State) (p : Pipe C) (w : World C) (err : Error)
      → Inv m
      → IsSound p.params
      → IsFed p.feedback
      → Keeps (do m' ← answer (some err) (goal_of m none) (called m p w); proceed s none m')
  unfolding answer proceed
  closed_failed m s p w err v ps fb =
      let (errcs', e, b) = refuse_lem (goal_of m none) m.errcs err _ refl v.books (fresh_lem m v) in
      let (t'', errcs'', e', gone, b') =
        dismiss_lem m.target errcs' [] (λ n q f. f)
          (rw (append-nil (waiting_on m.target.errc)) b) in
      (
        record m { pipe = p; world = w; errcs = errcs''; target = t''; state = none },
        rw (e, e'),
        record { fits = gone; books = rw gone b'; params = ps; feedback = fb },
      )

  -- A call that the state refuses: its error goes to the new channel, and nothing else changes.
  pub refused :
      (m : Machine A C) (s : State) (err : Error) (goal : Option State)
      → Inv m
      → m.state ≡ some s
      → (errcs' : List ErrChan) × ((do
        m' ← answer (some err) (goal_of m goal) (called m m.pipe m.world)
        proceed s (some s) m')
          ≡ done (record m { errcs = errcs' }))
        × Inv (record m { errcs = errcs' })
  unfolding answer proceed
  refused m s err goal v at =
      let (errcs', e, b) = refuse_lem (goal_of m goal) m.errcs err _ refl v.books (fresh_lem m v) in
      (
        errcs',
        rw (e, same_refl s),
        record { fits = v.fits; books = b; params = v.params; feedback = v.feedback },
      )

  -- An event without a target that the state accepts, and stays.
  pub quiet :
      (m : Machine A C) (s : State) (p : Pipe C) (w : World C)
      → Inv m
      → p.cancel ≡ m.pipe.cancel
      → IsSound p.params
      → IsFed p.feedback
      → Keeps
          (do m' ← answer none no_target (record m { pipe = p; world = w }); proceed s (some s) m')
  unfolding answer proceed
  quiet m s p w v c ps fb = (
    record m { pipe = p; world = w },
    rw (same_refl s),
    record { fits = rw c v.fits; books = v.books; params = ps; feedback = fb },
  )

  -- Reaching an idle state: the target is dismissed.
  pub reached_idle :
      (m : Machine A C) (s next : State)
      → same s next ≡ false
      → is_idle next ≡ true
      → (reached next m.target.state || same next ready) ≡ true
      → Books m.errcs (waiting_on m.target.errc)
      → ((t : Target) → t.errc ≡ none → Fits (some next) t m.pipe.cancel)
      → IsSound m.pipe.params
      → IsFed m.pipe.feedback
      → Keeps (proceed s (some next) m)
  unfolding proceed enter
  reached_idle m s next other idle there b fits ps fb =
      let (t', errcs', e, gone, b') =
        dismiss_lem m.target m.errcs [] (λ n q f. f)
          (rw (append-nil (waiting_on m.target.errc)) b) in
      (
        record m { state = some next; target = t'; errcs = errcs' },
        rw (other, idle, there, e),
        record { fits = fits t' gone; books = rw gone b'; params = ps; feedback = fb },
      )
