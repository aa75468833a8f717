-- ===== src/RateLimit/Invariant/Governance.antt =====
-- The operations of governance keep the stored limits good, and only the authority can run them.
use composable_centauri.Base.{
  ◌≡◌, ◌≢◌, ◌<◌, refl, inl, inr, true, false, some, none, arith, Bool-cases, Option-cases,
}
use composable_centauri.Base.Int.{pos, ◌≤ℤ◌, is_zero}
use composable_centauri.Base.Bytes.{Bytes, eq_bytes, eq_bytes_iff}
use composable_centauri.Base.Exec.{ok, err, Result-cases}
use composable_centauri.Kv.{Kv}
use composable_centauri.Sdk.{Sdk}
use composable_centauri.RateLimit.State.{
  RateLimit, State, Context, Error, invalid_signer, rate_limit_not_found,
}
use composable_centauri.RateLimit.Quota.{new_flow}
use composable_centauri.RateLimit.Keeper.{
  MsgRateLimit, get_rate_limit, set_rate_limit, limited_denom, fresh_rate_limit, add_rate_limit,
  update_rate_limit, get_channel_value,
}
use composable_centauri.RateLimit.Msgs.{
  validate_basic, add_transfer_rate_limit, update_transfer_rate_limit, remove_transfer_rate_limit,
  reset_transfer_rate_limit,
}
use composable_centauri.RateLimit.Invariant.Limits.{IsGood, IsSound, set_rate_limit-IsSound}
use composable_centauri.RateLimit.Invariant.Good.{zero_flow-IsGood}

module _ ⦃kv : Kv⦄ ⦃ctx : Context⦄ where
  pub update_rate_limit-missing :
      (msg : MsgRateLimit) (s : State)
      → get_rate_limit (limited_denom msg.denom msg.channel_id s) msg.channel_id s ≡ none
      → update_rate_limit msg s ≡ (err rate_limit_not_found, s)
  unfolding update_rate_limit
  update_rate_limit-missing msg s e = ground arith

  pub update_rate_limit-found :
      (msg : MsgRateLimit) {r : RateLimit} (s : State)
      → get_rate_limit (limited_denom msg.denom msg.channel_id s) msg.channel_id s ≡ some r
      → update_rate_limit msg s ≡ (
        ok tt,
        set_rate_limit (fresh_rate_limit (limited_denom msg.denom msg.channel_id s) msg) s,
      )
  unfolding update_rate_limit
  update_rate_limit-found msg s e = ground arith

module _ ⦃sdk : Sdk⦄ ⦃kv : Kv⦄ ⦃ctx : Context⦄ where
  -- A request that does not come from the authority is refused by each of the four handlers, and
  -- changes nothing.
  pub handlers-refuse :
      (msg : MsgRateLimit) (sender denom channel_id : Bytes) (s : State)
      → msg.authority ≢ ctx.authority
      → sender ≢ ctx.authority
      → (add_transfer_rate_limit msg s ≡ (err invalid_signer, s))
        × (update_transfer_rate_limit msg s ≡ (err invalid_signer, s))
        × (remove_transfer_rate_limit sender denom channel_id s ≡ (err invalid_signer, s))
        × (reset_transfer_rate_limit sender denom channel_id s ≡ (err invalid_signer, s))
  unfolding add_transfer_rate_limit update_transfer_rate_limit remove_transfer_rate_limit
      reset_transfer_rate_limit
  handlers-refuse msg sender denom channel_id s h k = (
    ground (arith, eq_bytes_iff ctx.authority msg.authority),
    ground (arith, eq_bytes_iff ctx.authority msg.authority),
    ground (arith, eq_bytes_iff ctx.authority sender),
    ground (arith, eq_bytes_iff ctx.authority sender),
  )

  -- What ValidateBasic lets through.
  validate_basic-ok :
      (msg : MsgRateLimit) (s : State)
      → (validate_basic msg s).0 ≡ ok tt
      → (pos 0 ≤ℤ msg.min_rate_limit_amount)
        × (0 < msg.duration_hours)
        × (pos 0 ≤ℤ msg.max_percent_send)
        × (msg.max_percent_send ≤ℤ pos 100)
        × (pos 0 ≤ℤ msg.max_percent_recv)
        × (msg.max_percent_recv ≤ℤ pos 100)
  unfolding validate_basic
  validate_basic-ok msg s h = ground arith

  validate_basic-state : (msg : MsgRateLimit) (s : State) → (validate_basic msg s).1 ≡ s
  unfolding validate_basic
  validate_basic-state msg s = ground arith

  fresh-IsGood :
      (denom : Bytes) (msg : MsgRateLimit) (s : State)
      → (validate_basic msg s).0 ≡ ok tt
      → IsGood (fresh_rate_limit denom msg)
  unfolding fresh_rate_limit new_flow
  fresh-IsGood denom msg s valid =
      let (minimum, hours, send_low, send_high, recv_low, recv_high) =
        validate_basic-ok msg s valid in
      zero_flow-IsGood (fresh_rate_limit denom msg) refl refl minimum hours
        (send_low, send_high, recv_low, recv_high)

  add_rate_limit-IsSound :
      (msg : MsgRateLimit) (s : State)
      → IsGood (fresh_rate_limit (limited_denom msg.denom msg.channel_id s) msg)
      → IsSound s
      → IsSound (add_rate_limit msg s).1
  unfolding add_rate_limit
  add_rate_limit-IsSound msg s g h =
      let denom : Bytes = limited_denom msg.denom msg.channel_id s in
      elim (Bool-cases (is_zero (get_channel_value denom))) [
        | inl zero_value ↦ rw zero_value h
        | inr nonzero ↦ elim (Option-cases (get_rate_limit denom msg.channel_id s)) [
          | inr (r, found) ↦ rw (nonzero, found) h
          | inl missing ↦
              rw (nonzero, missing) (set_rate_limit-IsSound (fresh_rate_limit denom msg) s g h)
        ]
      ]

  update_rate_limit-IsSound :
      (msg : MsgRateLimit) (s : State)
      → IsGood (fresh_rate_limit (limited_denom msg.denom msg.channel_id s) msg)
      → IsSound s
      → IsSound (update_rate_limit msg s).1
  update_rate_limit-IsSound msg s g h =
      let denom : Bytes = limited_denom msg.denom msg.channel_id s in
      elim (Option-cases (get_rate_limit denom msg.channel_id s)) [
        | inl missing ↦ rw (update_rate_limit-missing msg s missing) h
        | inr (r, found) ↦
            rw (update_rate_limit-found msg s found)
              (set_rate_limit-IsSound (fresh_rate_limit denom msg) s g h)
      ]

  add-refused :
      (msg : MsgRateLimit) (s : State)
      → eq_bytes ctx.authority msg.authority ≡ false
      → (add_transfer_rate_limit msg s).1 ≡ s
  unfolding add_transfer_rate_limit
  add-refused msg s e = ground arith

  add-invalid :
      (msg : MsgRateLimit) {x : Error} (s : State)
      → (validate_basic msg s).0 ≡ err x
      → (add_transfer_rate_limit msg s).1 ≡ s
  unfolding add_transfer_rate_limit
  add-invalid msg s e = ground (arith, validate_basic-state msg s)

  add-valid :
      (msg : MsgRateLimit) (s : State)
      → eq_bytes ctx.authority msg.authority ≡ true
      → (validate_basic msg s).0 ≡ ok tt
      → (add_transfer_rate_limit msg s).1 ≡ (add_rate_limit msg s).1
  unfolding add_transfer_rate_limit
  add-valid msg s e v = ground (arith, validate_basic-state msg s)

  update-refused :
      (msg : MsgRateLimit) (s : State)
      → eq_bytes ctx.authority msg.authority ≡ false
      → (update_transfer_rate_limit msg s).1 ≡ s
  unfolding update_transfer_rate_limit
  update-refused msg s e = ground arith

  update-invalid :
      (msg : MsgRateLimit) {x : Error} (s : State)
      → (validate_basic msg s).0 ≡ err x
      → (update_transfer_rate_limit msg s).1 ≡ s
  unfolding update_transfer_rate_limit
  update-invalid msg s e = ground (arith, validate_basic-state msg s)

  update-valid :
      (msg : MsgRateLimit) (s : State)
      → eq_bytes ctx.authority msg.authority ≡ true
      → (validate_basic msg s).0 ≡ ok tt
      → (update_transfer_rate_limit msg s).1 ≡ (update_rate_limit msg s).1
  unfolding update_transfer_rate_limit
  update-valid msg s e v = ground (arith, validate_basic-state msg s)

  pub add-IsSound :
      (msg : MsgRateLimit) (s : State) → IsSound s → IsSound (add_transfer_rate_limit msg s).1
  add-IsSound msg s h = elim (Bool-cases (eq_bytes ctx.authority msg.authority)) [
    | inr other ↦ rw (add-refused msg s other) h
    | inl own ↦ elim (Result-cases (validate_basic msg s).0) [
      | inr (x, invalid) ↦ rw (add-invalid msg s invalid) h
      | inl (_, valid) ↦
          rw (add-valid msg s own valid)
            (add_rate_limit-IsSound msg s (fresh-IsGood _ msg s valid) h)
    ]
  ]

  pub update-IsSound :
      (msg : MsgRateLimit) (s : State) → IsSound s → IsSound (update_transfer_rate_limit msg s).1
  update-IsSound msg s h = elim (Bool-cases (eq_bytes ctx.authority msg.authority)) [
    | inr other ↦ rw (update-refused msg s other) h
    | inl own ↦ elim (Result-cases (validate_basic msg s).0) [
      | inr (x, invalid) ↦ rw (update-invalid msg s invalid) h
      | inl (_, valid) ↦
          rw (update-valid msg s own valid)
            (update_rate_limit-IsSound msg s (fresh-IsGood _ msg s valid) h)
    ]
  ]
