-- ===== src/RateLimit/Epoch/Renewal.antt =====
-- What the end of an epoch does to the limits and to the epoch itself.
use composable_centauri.Base.{
  ℕ, ◌≡◌, ◌<◌, ◌+◌, ◌%◌, ◌^◌, ◌==◌, refl, ap, ◌∙◌, Bool, false, Option, none, some, List, [], ◌∷◌,
  map, arith, if◌then◌else◌,
}
use composable_centauri.Base.Int.{pos, ◌+ℤ◌}
use composable_centauri.Base.Bytes.{Bytes, eq_bytes, eq_bytes_iff, eq_bytes_refl}
use composable_centauri.Base.Exec.{ok, then-ok, modify, pure, ◌>>◌}
use composable_centauri.Kv.{Kv, lookup, IsUnique}
use composable_centauri.Kv.Entries.{AllEntries, entries_all}
use composable_centauri.RateLimit.State.{RateLimit, EpochInfo, State, Context, Action}
use composable_centauri.RateLimit.Quota.{new_flow}
use composable_centauri.RateLimit.Keeper.{
  get_all_rate_limits, limited_denom, set_rate_limit, get_rate_limit, reset_rate_limit,
  get_channel_value, remove_all_channel_pending_send_packets,
}
use composable_centauri.RateLimit.Epoch.{
  reset_if_due, reset_all_due, after_epoch_end, end_epoch, begin_epoch, advanced, day_epoch,
  to_uint64, next_int64, set_epoch_info, get_epoch_info,
}
use composable_centauri.RateLimit.Invariant.Limits.{IsSound, key_of, set_rate_limit-get}

next_int64-pos : (n : ℕ) → n + 1 < 2 ^ 63 → next_int64 (pos n) ≡ pos (n + 1)
unfolding next_int64 ◌+ℤ◌
next_int64-pos n h = ground arith

module _ ⦃kv : Kv⦄ ⦃ctx : Context⦄ where
  -- A limit after the end of the epoch of a number: a new quota period where its own has passed.
  abbrev pub renewed : ℕ → RateLimit → RateLimit
  renewed n r =
      if n % r.quota.duration_hours == 0
      then record r { flow = new_flow (ctx.get_supply r.path.denom) }
      else r

  abbrev pub renewed_entry : ℕ → Option RateLimit → Option RateLimit
  renewed_entry n none = none
  renewed_entry n (some r) = some (renewed n r)

  -- The limit's denom is not one that the parachain bridge now carries on the limit's channel.
  abbrev pub IsOwn : RateLimit → State → Type 0
  IsOwn r s = limited_denom r.path.denom r.path.channel_id s ≡ r.path.denom

  -- No stored limit's denom is.
  abbrev pub IsPlain : State → Type 0
  IsPlain s = (k : Bytes) (r : RateLimit) → kv.get k s.rate_limits ≡ some r → IsOwn r s

  reset-get :
      (r : RateLimit) (k : Bytes) (s : State)
      → IsOwn r s
      → kv.get (key_of r) s.rate_limits ≡ some r
      → kv.get k (reset_rate_limit r.path.denom r.path.channel_id s).1.rate_limits ≡ (
          if eq_bytes (key_of r) k
          then some (record r { flow = new_flow (ctx.get_supply r.path.denom) })
          else kv.get k s.rate_limits)
  unfolding reset_rate_limit get_rate_limit remove_all_channel_pending_send_packets
      get_channel_value
  reset-get r k s plain found = ground (
    arith,
    plain,
    set_rate_limit-get (record r { flow = new_flow (ctx.get_supply r.path.denom) }) k s,
  )

  reset-registry :
      (r : RateLimit) (s : State)
      → (reset_rate_limit r.path.denom r.path.channel_id s).1.registry ≡ s.registry
  unfolding reset_rate_limit set_rate_limit remove_all_channel_pending_send_packets
  reset-registry r s = ground arith

  reset_if_due-get :
      (n : ℕ) (r : RateLimit) (k : Bytes) (s : State)
      → IsOwn r s
      → 0 < r.quota.duration_hours
      → kv.get (key_of r) s.rate_limits ≡ some r
      → kv.get k (reset_if_due n r s).1.rate_limits
        ≡ (if eq_bytes (key_of r) k then some (renewed n r) else kv.get k s.rate_limits)
  unfolding reset_if_due
  reset_if_due-get n r k s plain period found =
      ground (arith, reset-get r k s plain found, eq_bytes_iff (key_of r) k)

  reset_if_due-ok :
      (n : ℕ) (r : RateLimit) (s : State)
      → 0 < r.quota.duration_hours
      → (reset_if_due n r s).0 ≡ ok tt
  unfolding reset_if_due
  reset_if_due-ok n r s period = ground arith

  reset_if_due-registry :
      (n : ℕ) (r : RateLimit) (s : State) → (reset_if_due n r s).1.registry ≡ s.registry
  unfolding reset_if_due
  reset_if_due-registry n r s = ground (arith, reset-registry r s)

  still-IsOwn :
      (n : ℕ) (r r' : RateLimit) (s : State) → IsOwn r' s → IsOwn r' (reset_if_due n r s).1
  unfolding limited_denom
  still-IsOwn n r r' s plain = rw (reset_if_due-registry n r s) plain

  -- An entry of the store, with its limit under its own key, with a period, and on its own denom.
  abbrev IsHeld : State → Bytes → RateLimit → Type 0
  IsHeld s k r =
      (kv.get k s.rate_limits ≡ some r) × (key_of r ≡ k) × (0 < r.quota.duration_hours) × IsOwn r s

  still-IsHeld :
      (n : ℕ) (k : Bytes) (r : RateLimit) (l : List (Bytes × RateLimit)) (s : State)
      → IsHeld s k r
      → lookup k l ≡ none
      → AllEntries (IsHeld s) l
      → AllEntries (IsHeld (reset_if_due n r s).1) l
  unfolding lookup
  still-IsHeld n k r [] s held fresh h = tt
  still-IsHeld n k r ((j, r') ∷ l) s held fresh h = (
    (
      ground (
        arith,
        reset_if_due-get n r j s held.3 held.2 (rw held.1 held.0),
        eq_bytes_iff k j,
        eq_bytes_iff j k,
        h.0.0,
        held.1,
      ),
      h.0.1,
      h.0.2,
      still-IsOwn n r r' s h.0.3,
    ),
    still-IsHeld n k r l s held (ground (arith, eq_bytes_iff j k)) h.1,
  )

  reset_all_due-get :
      (n : ℕ) (l : List (Bytes × RateLimit)) (k : Bytes) (s : State)
      → IsUnique l
      → AllEntries (IsHeld s) l
      → let (result, t) = reset_all_due n (map (λ e. e.1) l) s in
        (result ≡ ok tt)
        × (kv.get k t.rate_limits
            ≡ (elim (lookup k l) [ none ↦ kv.get k s.rate_limits | some r ↦ some (renewed n r) ]))
  unfolding reset_all_due lookup
  reset_all_due-get n [] k s u h = (refl, refl)
  reset_all_due-get n ((j, r) ∷ l) k s u h =
      let first : State = (reset_if_due n r s).1 in
      let (done, found) = reset_all_due-get n l k first u.1 (still-IsHeld n j r l s h.0 u.0 h.1) in
      rw
        (then-ok (reset_if_due n r) (reset_all_due n (map (λ e. e.1) l)) s
          (reset_if_due-ok n r s h.0.2))
        (
          done,
          ground (
            arith,
            found,
            reset_if_due-get n r k s h.0.3 h.0.2 (rw h.0.1 h.0.0),
            h.0,
            u.0,
            eq_bytes_iff j k,
          ),
        )

  entries-IsHeld :
      (s : State) → IsPlain s → IsSound s → AllEntries (IsHeld s) (kv.entries s.rate_limits)
  entries-IsHeld s plain h =
      entries_all (IsHeld s) s.rate_limits
        (λ k r found. (found, h.keyed k r found, (h.good k r found).period, plain k r found))

  after_epoch_end-get :
      (e : EpochInfo) (n : ℕ) (k : Bytes) (s : State)
      → e.identifier ≡ day_epoch
      → to_uint64 e.current_epoch ≡ n
      → IsPlain s
      → IsSound s
      → let (result, t) = after_epoch_end e s in
        (result ≡ ok tt) × (kv.get k t.rate_limits ≡ renewed_entry n (kv.get k s.rate_limits))
  unfolding after_epoch_end get_all_rate_limits eq_bytes
  after_epoch_end-get e n k s day number plain h =
      let (done, found) =
        reset_all_due-get n (kv.entries s.rate_limits) k s (kv.entries-IsUnique s.rate_limits)
          (entries-IsHeld s plain h) in
      rw (day, number) (done, ground (arith, found, kv.lookup-entries k s.rate_limits))

  -- The end of the quota epoch number n, with n + 1 below 2 ^ 63, over good limits none of which is on
  -- a denom that the bridge now carries on the limit's channel, returns no error; every limit whose
  -- period divides n starts a new period, with zero flows and the supply of its denom as channel
  -- value, every other limit stays; the stored epoch has the next number and begins where the last one
  -- ended.
  pub end_epoch-renewed :
      (e : EpochInfo) (n : ℕ) (s : State)
      → e.identifier ≡ day_epoch
      → e.current_epoch ≡ pos n
      → n + 1 < 2 ^ 63
      → IsPlain s
      → IsSound s
      → let (result, t) = end_epoch e s in
        (result ≡ ok false)
        × ((k : Bytes) → kv.get k t.rate_limits ≡ renewed_entry n (kv.get k s.rate_limits))
        × (get_epoch_info e.identifier t ≡ record e {
          current_epoch = pos (n + 1);
          current_epoch_start_time = e.current_epoch_start_time +ℤ e.duration;
          current_epoch_start_height = ctx.block_height;
        })
  unfolding end_epoch begin_epoch advanced next_int64 to_uint64 get_epoch_info set_epoch_info
  end_epoch-renewed e n s day number small plain h =
      let ending : EpochInfo = record e { current_epoch_start_height = ctx.block_height } in
      let t : State = (after_epoch_end ending s).1 in
      let counted : to_uint64 e.current_epoch ≡ n = rw number (omega arith) in
      let finished : Action Bool = modify (begin_epoch (advanced e)) >> pure false in
      let returned : (after_epoch_end ending s).0 ≡ ok tt =
        (after_epoch_end-get ending n [] s day counted plain h).0 in
      rw (then-ok (after_epoch_end ending) finished s returned) (
        refl,
        (λ k. (after_epoch_end-get ending n k s day counted plain h).1),
        ground (
          arith,
          kv.get-set e.identifier e.identifier (advanced e) t.epochs,
          eq_bytes_refl e.identifier,
          number,
          ap next_int64 number ∙ next_int64-pos n small,
        ),
      )
