-- ===== src/RateLimit/Keeper/Check.antt =====
-- CheckRateLimitAndUpdateFlow on every branch.
use composable_centauri.Base.{
  ◌≡◌, ◌⊎◌, inl, inr, true, false, none, some, Bool-cases, Option-cases, arith,
}
use composable_centauri.Base.Int.{ℤ, ◌+ℤ◌, ◌-ℤ◌}
use composable_centauri.Base.Exec.{ok, err}
use composable_centauri.Kv.{Kv}
use composable_centauri.RateLimit.State.{
  PacketDirection, packet_send, packet_recv, RateLimit, Error, quota_exceeded, State,
}
use composable_centauri.RateLimit.Quota.Bounds.{
  Admits, Refuses, add_outflow-cases, add_inflow-cases,
}
use composable_centauri.RateLimit.Keeper.{
  RateLimitedPacketInfo, get_rate_limit, set_rate_limit, is_address_pair_whitelisted, update_flow,
  check_rate_limit_and_update_flow, emit_transfer_denied_event,
}

-- A limit with an amount added to the flow of a direction.
abbrev pub sent : RateLimit → ℤ → RateLimit
sent r amount = record r { flow = record r.flow { outflow = r.flow.outflow +ℤ amount } }

abbrev pub received : RateLimit → ℤ → RateLimit
received r amount = record r { flow = record r.flow { inflow = r.flow.inflow +ℤ amount } }

-- What a limit admits on top of its flows.
abbrev pub AdmitsSend : RateLimit → ℤ → Type 0
AdmitsSend r amount =
    Admits packet_send r.quota r.flow.channel_value r.min_rate_limit_amount
      (r.flow.outflow -ℤ r.flow.inflow +ℤ amount)

abbrev pub RefusesSend : RateLimit → ℤ → Type 0
RefusesSend r amount =
    Refuses packet_send r.quota r.flow.channel_value r.min_rate_limit_amount
      (r.flow.outflow -ℤ r.flow.inflow +ℤ amount)

abbrev pub AdmitsRecv : RateLimit → ℤ → Type 0
AdmitsRecv r amount =
    Admits packet_recv r.quota r.flow.channel_value r.min_rate_limit_amount
      (r.flow.inflow -ℤ r.flow.outflow +ℤ amount)

abbrev pub RefusesRecv : RateLimit → ℤ → Type 0
RefusesRecv r amount =
    Refuses packet_recv r.quota r.flow.channel_value r.min_rate_limit_amount
      (r.flow.inflow -ℤ r.flow.outflow +ℤ amount)

module _ ⦃kv : Kv⦄ where
  -- No limit for the packet, or a pair that is not limited.
  abbrev pub IsUnlimited : RateLimitedPacketInfo → State → Type 0
  IsUnlimited p s =
      (get_rate_limit p.denom p.channel_id s ≡ none)
      ⊎ (is_address_pair_whitelisted p.sender p.receiver s ≡ true)

  module _ (d : PacketDirection) (p : RateLimitedPacketInfo) (s : State) where
    check-none :
        get_rate_limit p.denom p.channel_id s ≡ none
        → check_rate_limit_and_update_flow d p s ≡ (ok false, s)
    unfolding check_rate_limit_and_update_flow
    check-none e = ground arith

    check-whitelisted :
        is_address_pair_whitelisted p.sender p.receiver s ≡ true
        → check_rate_limit_and_update_flow d p s ≡ (ok false, s)
    unfolding check_rate_limit_and_update_flow
    check-whitelisted e = ground arith

    check-updated :
        (r r' : RateLimit)
        → get_rate_limit p.denom p.channel_id s ≡ some r
        → is_address_pair_whitelisted p.sender p.receiver s ≡ false
        → update_flow r d p.amount ≡ ok r'
        → check_rate_limit_and_update_flow d p s ≡ (ok true, set_rate_limit r' s)
    unfolding check_rate_limit_and_update_flow
    check-updated r r' e w u = ground arith

    check-denied :
        (r : RateLimit) (x : Error)
        → get_rate_limit p.denom p.channel_id s ≡ some r
        → is_address_pair_whitelisted p.sender p.receiver s ≡ false
        → update_flow r d p.amount ≡ err x
        → check_rate_limit_and_update_flow d p s
          ≡ (err x, emit_transfer_denied_event p.denom p.channel_id d p.amount x s)
    unfolding check_rate_limit_and_update_flow
    check-denied r x e w u = ground arith

  -- A packet out, on every branch: without a limit or from a whitelisted pair it passes and
  -- changes nothing; within the quota the limit's outflow alone grows, by the amount; beyond it the
  -- packet is refused and nothing but an event is written.
  pub check_rate_limit_and_update_flow-send :
      (p : RateLimitedPacketInfo) (s : State)
      → (IsUnlimited p s × (check_rate_limit_and_update_flow packet_send p s ≡ (ok false, s)))
        ⊎ ((r : RateLimit) × (get_rate_limit p.denom p.channel_id s ≡ some r)
            × ((AdmitsSend r p.amount
                  × (check_rate_limit_and_update_flow packet_send p s
                      ≡ (ok true, set_rate_limit (sent r p.amount) s)))
                ⊎ (RefusesSend r p.amount
                    × (check_rate_limit_and_update_flow packet_send p s ≡ (
                      err quota_exceeded,
                      emit_transfer_denied_event p.denom p.channel_id packet_send p.amount
                          quota_exceeded s,
                    )))))
  unfolding update_flow
  check_rate_limit_and_update_flow-send p s =
      elim (Option-cases (get_rate_limit p.denom p.channel_id s)) [
        | inl missing ↦ inl (inl missing, check-none packet_send p s missing)
        | inr (r, found) ↦ elim (Bool-cases (is_address_pair_whitelisted p.sender p.receiver s)) [
          | inl listed ↦ inl (inr listed, check-whitelisted packet_send p s listed)
          | inr limited ↦ inr (
            r,
            found,
            elim (add_outflow-cases r.flow p.amount r.quota r.min_rate_limit_amount) [
              | inl (fits, e) ↦
                  inl (fits, check-updated packet_send p s r (sent r p.amount) found limited (rw e))
              | inr (over, e) ↦
                  inr (over, check-denied packet_send p s r quota_exceeded found limited (rw e))
            ],
          )
        ]
      ]

  -- A packet in, on every branch: without a limit or from a whitelisted pair it passes and changes
  -- nothing; within the quota the limit's inflow alone grows, by the amount; beyond it the packet
  -- is refused and nothing but an event is written.
  pub check_rate_limit_and_update_flow-recv :
      (p : RateLimitedPacketInfo) (s : State)
      → (IsUnlimited p s × (check_rate_limit_and_update_flow packet_recv p s ≡ (ok false, s)))
        ⊎ ((r : RateLimit) × (get_rate_limit p.denom p.channel_id s ≡ some r)
            × ((AdmitsRecv r p.amount
                  × (check_rate_limit_and_update_flow packet_recv p s
                      ≡ (ok true, set_rate_limit (received r p.amount) s)))
                ⊎ (RefusesRecv r p.amount
                    × (check_rate_limit_and_update_flow packet_recv p s ≡ (
                      err quota_exceeded,
                      emit_transfer_denied_event p.denom p.channel_id packet_recv p.amount
                          quota_exceeded s,
                    )))))
  unfolding update_flow
  check_rate_limit_and_update_flow-recv p s =
      elim (Option-cases (get_rate_limit p.denom p.channel_id s)) [
        | inl missing ↦ inl (inl missing, check-none packet_recv p s missing)
        | inr (r, found) ↦ elim (Bool-cases (is_address_pair_whitelisted p.sender p.receiver s)) [
          | inl listed ↦ inl (inr listed, check-whitelisted packet_recv p s listed)
          | inr limited ↦ inr (
            r,
            found,
            elim (add_inflow-cases r.flow p.amount r.quota r.min_rate_limit_amount) [
              | inl (fits, e) ↦
                  inl (
                    fits,
                    check-updated packet_recv p s r (received r p.amount) found limited (rw e),
                  )
              | inr (over, e) ↦
                  inr (over, check-denied packet_recv p s r quota_exceeded found limited (rw e))
            ],
          )
        ]
      ]
