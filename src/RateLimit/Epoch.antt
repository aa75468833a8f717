-- ===== src/RateLimit/Epoch.antt =====
-- Epochs and the quota resets at their ends (x/ratelimit/keeper/epoch.go and abci.go,
-- x/ratelimit/types/epoch.go).
pub mod Renewal
use composable_centauri.Base.{
  ℕ, suc, ◌-◌, ◌%◌, ◌^◌, Bool, true, false, not, ◌&&◌, ◌==◌, List, [], ◌∷◌, ◌++◌, map,
  if◌then◌else◌,
}
use composable_centauri.Base.Int.{ℤ, pos, negsuc, ◌+ℤ◌, ◌-ℤ◌, ltb_ℤ, leb_ℤ, eqb_ℤ}
use composable_centauri.Base.Bytes.{Bytes, bytes, eq_bytes}
use composable_centauri.Base.Exec.{ok, err, pure, modify, gets, raise_if, ◌>>=◌, ◌>>◌}
use composable_centauri.Kv.{Kv, has, get_or}
use composable_centauri.RateLimit.State.{
  RateLimit, EpochInfo, invalid_epoch, epoch_already_exists, epoch_not_found, division_by_zero,
  epoch_start, State, Context, Action,
}
use composable_centauri.RateLimit.Keeper.{get_all_rate_limits, reset_rate_limit}

-- DayEpoch
abbrev pub day_epoch : Bytes
day_epoch = bytes "hour"

-- EpochHourPeriod, 24 * time.Hour in nanoseconds.
abbrev pub epoch_hour_period : ℤ
epoch_hour_period = pos 86400000000000

-- time.Time{}, the first of January of the year 1, in nanoseconds from 1970.
abbrev pub zero_time : ℤ
zero_time = negsuc 62135596799999999999

-- EpochInfo{}
abbrev pub no_epoch : EpochInfo
no_epoch = record {
  identifier = [];
  start_time = zero_time;
  duration = pos 0;
  current_epoch = pos 0;
  current_epoch_start_time = zero_time;
  epoch_counting_started = false;
  current_epoch_start_height = pos 0;
}

-- `epoch == EpochInfo{}`
unfoldable pub is_no_epoch : EpochInfo → Bool
is_no_epoch e =
    eq_bytes e.identifier []
    && eqb_ℤ e.start_time zero_time
    && eqb_ℤ e.duration (pos 0)
    && eqb_ℤ e.current_epoch (pos 0)
    && eqb_ℤ e.current_epoch_start_time zero_time
    && not e.epoch_counting_started
    && eqb_ℤ e.current_epoch_start_height (pos 0)

-- The `++` of an int64.
unfoldable pub next_int64 : ℤ → ℤ
next_int64 n = let m = n +ℤ pos 1 in if leb_ℤ (pos (2 ^ 63)) m then m -ℤ pos (2 ^ 64) else m

-- The conversion of an int64 to a uint64.
unfoldable pub to_uint64 : ℤ → ℕ
to_uint64 (pos n) = n % 2 ^ 64
to_uint64 (negsuc n) = 2 ^ 64 - suc n

-- EpochInfo.Validate, true where it returns no error.
unfoldable pub validate : EpochInfo → Bool
validate e =
    not (eq_bytes e.identifier [])
    && not (eqb_ℤ e.duration (pos 0))
    && not (ltb_ℤ e.current_epoch (pos 0))
    && not (ltb_ℤ e.current_epoch_start_height (pos 0))

-- NewGenesisEpochInfo
unfoldable pub new_genesis_epoch_info : Bytes → ℤ → EpochInfo
new_genesis_epoch_info identifier duration = record {
  identifier = identifier;
  start_time = zero_time;
  duration = duration;
  current_epoch = pos 0;
  current_epoch_start_time = zero_time;
  epoch_counting_started = false;
  current_epoch_start_height = pos 0;
}

module _ ⦃kv : Kv⦄ where
  -- HasEpochInfo, GetEpochInfo, setEpochInfo, DeleteEpochInfo and AllEpochInfos
  unfoldable pub has_epoch_info : Bytes → State → Bool
  has_epoch_info identifier s = has identifier s.epochs

  unfoldable pub get_epoch_info : Bytes → State → EpochInfo
  get_epoch_info identifier s = get_or identifier s.epochs no_epoch

  unfoldable pub set_epoch_info : EpochInfo → State → State
  set_epoch_info e s = record s { epochs = kv.set e.identifier e s.epochs }

  unfoldable pub delete_epoch_info : Bytes → State → State
  delete_epoch_info identifier s = record s { epochs = kv.delete identifier s.epochs }

  unfoldable pub all_epoch_infos : State → List EpochInfo
  all_epoch_infos s = map (λ e. e.1) (kv.entries s.epochs)

  module _ ⦃ctx : Context⦄ where
    -- The epoch that AddEpochInfo stores.
    unfoldable pub opened : EpochInfo → EpochInfo
    opened e = record e {
      start_time = if eqb_ℤ e.start_time zero_time then ctx.block_time else e.start_time;
      current_epoch_start_height = ctx.block_height;
    }

    -- AddEpochInfo
    unfoldable pub add_epoch_info : EpochInfo → Action (Unit {0})
    unfolding opened set_epoch_info get_epoch_info
    add_epoch_info e = do
      raise_if (not (validate e)) invalid_epoch
      raise_if (← gets (λ s. not (is_no_epoch (get_epoch_info e.identifier s))))
          epoch_already_exists
      modify (set_epoch_info (opened e))

    -- NumBlocksSinceEpochStart
    unfoldable pub num_blocks_since_epoch_start : Bytes → Action ℤ
    unfolding get_epoch_info
    num_blocks_since_epoch_start identifier = do
      epoch ← gets (get_epoch_info identifier)
      raise_if (is_no_epoch epoch) epoch_not_found
      pure (ctx.block_height -ℤ epoch.current_epoch_start_height)

    -- One round of the loop of AfterEpochEnd. The remainder by zero panics; the error of a reset is
    -- only logged.
    unfoldable pub reset_if_due : ℕ → RateLimit → Action (Unit {0})
    reset_if_due epoch_hour r s =
        if r.quota.duration_hours == 0
        then (err division_by_zero, s)
        else if epoch_hour % r.quota.duration_hours == 0
        then (ok tt, (reset_rate_limit r.path.denom r.path.channel_id s).1)
        else (ok tt, s)

    unfoldable pub reset_all_due : ℕ → List RateLimit → Action (Unit {0})
    reset_all_due epoch_hour [] = pure tt
    reset_all_due epoch_hour (r ∷ rest) = do
      reset_if_due epoch_hour r
      reset_all_due epoch_hour rest

    -- AfterEpochEnd
    unfoldable pub after_epoch_end : EpochInfo → Action (Unit {0})
    after_epoch_end e s =
        if eq_bytes e.identifier day_epoch
        then reset_all_due (to_uint64 e.current_epoch) (get_all_rate_limits s) s
        else (ok tt, s)

    -- The epoch as the first block of its counting leaves it, and as the end of an epoch does.
    unfoldable pub started : EpochInfo → EpochInfo
    started e = record e {
      current_epoch = pos 1;
      current_epoch_start_time = e.start_time;
      epoch_counting_started = true;
      current_epoch_start_height = ctx.block_height;
    }

    unfoldable pub advanced : EpochInfo → EpochInfo
    unfolding next_int64
    advanced e = record e {
      current_epoch = next_int64 e.current_epoch;
      current_epoch_start_time = e.current_epoch_start_time +ℤ e.duration;
      current_epoch_start_height = ctx.block_height;
    }

    -- The end of BeginBlocker's callback: the event, and the epoch stored.
    unfoldable pub begin_epoch : EpochInfo → State → State
    unfolding set_epoch_info
    begin_epoch e s = set_epoch_info e (record s {
      events = s.events ++ epoch_start e.current_epoch e.current_epoch_start_time ∷ [];
    })

    -- The branch of BeginBlocker's callback at the end of an epoch.
    unfoldable pub end_epoch : EpochInfo → Action Bool
    unfolding advanced begin_epoch
    end_epoch e = do
      after_epoch_end (record e { current_epoch_start_height = ctx.block_height })
      modify (begin_epoch (advanced e))
      pure false

    -- The callback of BeginBlocker: whether the iteration stops.
    unfoldable pub tick : EpochInfo → Action Bool
    unfolding started begin_epoch
    tick e s =
        if ltb_ℤ ctx.block_time e.start_time
        then (ok true, s)
        else if not e.epoch_counting_started
        then (ok false, begin_epoch (started e) s)
        else if ltb_ℤ (e.current_epoch_start_time +ℤ e.duration) ctx.block_time
        then end_epoch e s
        else (ok false, s)

    -- IterateEpochInfo with that callback.
    unfoldable pub tick_all : List (Bytes × EpochInfo) → Action (Unit {0})
    tick_all [] = pure tt
    tick_all (e ∷ rest) = do stop ← tick e.1; elim stop [ true ↦ pure tt | false ↦ tick_all rest ]

    -- BeginBlocker
    unfoldable pub begin_blocker : Action (Unit {0})
    begin_blocker s = tick_all (kv.entries s.epochs) s
