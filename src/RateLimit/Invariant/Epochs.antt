-- ===== src/RateLimit/Invariant/Epochs.antt =====
-- The ends of epochs keep the stored limits good, and a block cannot panic over them.
use composable_centauri.Base.{
  ℕ, ◌<◌, refl, inl, inr, Bool, true, false, not, List, [], ◌∷◌, ◌%◌, ◌==◌, map, arith, Bool-cases,
  if-keeps, if◌then◌else◌,
}
use composable_centauri.Base.Int.{ltb_ℤ, ◌+ℤ◌}
use composable_centauri.Base.Bytes.{Bytes, eq_bytes}
use composable_centauri.Base.Exec.{Result, ok, err, raise, pure, modify, ◌>>=◌, ◌>>◌}
use composable_centauri.Kv.{Kv}
use composable_centauri.Kv.Entries.{AllEntries, entries_all}
use composable_centauri.RateLimit.State.{RateLimit, EpochInfo, Error, State, Context, Action}
use composable_centauri.RateLimit.Keeper.{get_all_rate_limits}
use composable_centauri.RateLimit.Epoch.{
  reset_if_due, reset_all_due, after_epoch_end, tick, tick_all, begin_blocker, begin_epoch,
  day_epoch, to_uint64, started, advanced, end_epoch,
}
use composable_centauri.RateLimit.Invariant.Limits.{IsGood, IsSound, same_limits-IsSound}
use composable_centauri.RateLimit.Invariant.Resets.{reset_rate_limit-IsSound}

module _ ⦃kv : Kv⦄ ⦃ctx : Context⦄ where
  -- A call that returns without an error or a panic, in a state with good limits.
  abbrev pub Succeeds : {A : Type 0} → Result Error A × State → Type 0
  Succeeds (ok _, t) = IsSound t
  Succeeds (err _, t) = ⊥

  continue-Succeeds :
      {A B : Type 0} (f : A → Action B) (x : Result Error A × State)
      → Succeeds x
      → ((a : A) (t : State) → IsSound t → Succeeds (f a t))
      → Succeeds {A = B} (
          let (r, t) = x in
          let y : Result Error B × State = elim r [ ok a ↦ f a t | err e ↦ raise e t ] in y)
  continue-Succeeds f (ok a, t) h k = k a t h
  continue-Succeeds f (err e, t) h k = absurd h

  Succeeds-bind :
      {A B : Type 0} (m : Action A) (f : A → Action B) (s : State)
      → Succeeds (m s)
      → ((a : A) (t : State) → IsSound t → Succeeds (f a t))
      → Succeeds ((m >>= f) s)
  Succeeds-bind m f s h k = continue-Succeeds f (m s) h k

  reset_if_due-Succeeds :
      (n : ℕ) (r : RateLimit) (s : State)
      → 0 < r.quota.duration_hours
      → IsSound s
      → Succeeds (reset_if_due n r s)
  unfolding reset_if_due
  reset_if_due-Succeeds n r s period h = elim (Bool-cases (r.quota.duration_hours == 0)) [
    | inl zero_period ↦ absurd (ground arith)
    | inr nonzero ↦ elim (Bool-cases (n % r.quota.duration_hours == 0)) [
      | inl due ↦ rw (nonzero, due) (reset_rate_limit-IsSound r.path.denom r.path.channel_id s h)
      | inr early ↦ rw (nonzero, early) h
    ]
  ]

  abbrev AllGood : List RateLimit → Type 0
  AllGood [] = Unit
  AllGood (r ∷ l) = IsGood r × AllGood l

  entries-AllGood :
      (l : List (Bytes × RateLimit)) → AllEntries (λ k r. IsGood r) l → AllGood (map (λ e. e.1) l)
  entries-AllGood [] h = tt
  entries-AllGood (e ∷ l) h = (h.0, entries-AllGood l h.1)

  all_limits-AllGood : (s : State) → IsSound s → AllGood (get_all_rate_limits s)
  unfolding get_all_rate_limits
  all_limits-AllGood s h =
      entries-AllGood (kv.entries s.rate_limits)
        (entries_all (λ k r. IsGood r) s.rate_limits h.good)

  reset_all_due-Succeeds :
      (n : ℕ) (l : List RateLimit) (s : State)
      → AllGood l
      → IsSound s
      → Succeeds (reset_all_due n l s)
  unfolding reset_all_due
  reset_all_due-Succeeds n [] s g h = h
  reset_all_due-Succeeds n (r ∷ l) s g h =
      Succeeds-bind (reset_if_due n r) (λ _. reset_all_due n l) s
        (reset_if_due-Succeeds n r s g.0.period h) (λ u t k. reset_all_due-Succeeds n l t g.1 k)

  after_epoch_end-Succeeds :
      (e : EpochInfo) (s : State) → IsSound s → Succeeds (after_epoch_end e s)
  unfolding after_epoch_end
  after_epoch_end-Succeeds e s h = elim (Bool-cases (eq_bytes e.identifier day_epoch)) [
    | inl day ↦ rw day (
        reset_all_due-Succeeds (to_uint64 e.current_epoch) (get_all_rate_limits s) s
          (all_limits-AllGood s h) h)
    | inr other ↦ rw other h
  ]

  begin_epoch-IsSound : (e : EpochInfo) (s : State) → IsSound s → IsSound (begin_epoch e s)
  unfolding begin_epoch
  begin_epoch-IsSound e s h = same_limits-IsSound s _ refl h

  end_epoch-Succeeds : (e : EpochInfo) (s : State) → IsSound s → Succeeds (end_epoch e s)
  unfolding end_epoch
  end_epoch-Succeeds e s h =
      Succeeds-bind (after_epoch_end (record e { current_epoch_start_height = ctx.block_height }))
        (λ _. modify (begin_epoch (advanced e)) >> pure false) s (after_epoch_end-Succeeds _ s h)
        (λ u t k. begin_epoch-IsSound (advanced e) t k)

  tick-Succeeds : (e : EpochInfo) (s : State) → IsSound s → Succeeds (tick e s)
  unfolding tick
  tick-Succeeds e s h =
      if-keeps Succeeds (ltb_ℤ ctx.block_time e.start_time) (ok true, s)
        (if not e.epoch_counting_started
          then (ok false, begin_epoch (started e) s)
          else if ltb_ℤ (e.current_epoch_start_time +ℤ e.duration) ctx.block_time
          then end_epoch e s
          else (ok false, s))
        h
        (if-keeps Succeeds (not e.epoch_counting_started) (ok false, begin_epoch (started e) s)
          (if ltb_ℤ (e.current_epoch_start_time +ℤ e.duration) ctx.block_time
            then end_epoch e s
            else (ok false, s))
          (begin_epoch-IsSound (started e) s h)
          (if-keeps Succeeds (ltb_ℤ (e.current_epoch_start_time +ℤ e.duration) ctx.block_time)
            (end_epoch e s) (ok false, s) (end_epoch-Succeeds e s h) h))

  stop-Succeeds :
      (stop : Bool) (m : Action (Unit {0})) (t : State)
      → IsSound t
      → Succeeds (m t)
      → Succeeds (let go : Action (Unit {0}) = elim stop [ true ↦ pure tt | false ↦ m ] in go t)
  stop-Succeeds true m t h k = h
  stop-Succeeds false m t h k = k

  tick_all-Succeeds :
      (l : List (Bytes × EpochInfo)) (s : State) → IsSound s → Succeeds (tick_all l s)
  unfolding tick_all
  tick_all-Succeeds [] s h = h
  tick_all-Succeeds (e ∷ l) s h =
      Succeeds-bind (tick e.1) _ s (tick-Succeeds e.1 s h)
        (λ stop t k. stop-Succeeds stop (tick_all l) t k (tick_all-Succeeds l t k))

  -- A block over good limits neither panics (the remainder by a period of zero) nor fails, and its
  -- limits are good.
  pub begin_blocker-Succeeds : (s : State) → IsSound s → Succeeds (begin_blocker s)
  unfolding begin_blocker
  begin_blocker-Succeeds s h = tick_all-Succeeds (kv.entries s.epochs) s h
