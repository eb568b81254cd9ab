-- ===== src/Asset.antt =====
-- phono.go: `SingleUse`; asset/asset.go: the sink that keeps what it receives in a buffer.
pub mod Keeping
use phono.Base.{◌≡◌, Bool, true, false, List, [], ◌∷◌, Option, none, some, String}
use phono.Base.Outcome.{Outcome, done, panic, ◌>>=◌}
use phono.Buffer.{Buffer, append}

-- `ErrSingleUseReused`
pub data SingleUseError : Type 0 where
  single_use_reused : SingleUseError

-- `SingleUse`, with the `sync.Once` that is changed: whether it has run.
unfoldable pub single_use : Bool → Bool × Option SingleUseError
single_use false = (true, none)
single_use true = (true, some single_use_reused)

pub record Asset (A : Type 0) : Type 0 where
  pub uid : String
  pub buffer : Buffer A
  pub once : Bool

module _ {A : Type 0} where
  -- `New`, with the id that `NewUID` makes.
  unfoldable pub new_asset : String → Asset A
  new_asset uid = record { uid = uid; buffer = none; once = false }

  -- `Reset`
  unfoldable pub reset : Asset A → Asset A × Option SingleUseError
  unfolding single_use
  reset a = let (once, err) = single_use a.once in (record a { once = once }, err)

  -- The function that `Sink` returns.
  unfoldable pub sink : Buffer A → Asset A → Outcome (Asset A)
  unfolding append
  sink b a = do buffer ← append a.buffer b; done (record a { buffer = buffer })

  unfoldable pub sink_all : List (Buffer A) → Asset A → Outcome (Asset A)
  unfolding sink
  sink_all [] a = done a
  sink_all (b ∷ bs) a = do a' ← sink b a; sink_all bs a'
