-- ===== src/RateLimit/Quota.antt =====
-- Quotas and flows (x/ratelimit/types/quota.go and flow.go).
pub mod Bounds
use composable_centauri.Base.{Bool, false, if◌then◌else◌}
use composable_centauri.Base.Int.{ℤ, pos, ◌+ℤ◌, ◌-ℤ◌, ◌*ℤ◌, quo, ltb_ℤ, is_zero}
use composable_centauri.Base.Exec.{Result, ok, err}
use composable_centauri.RateLimit.State.{
  PacketDirection, packet_send, packet_recv, other, Quota, Flow, Error, quota_exceeded,
}

-- The percentage that a direction allows: every direction but PACKET_RECV takes the send one.
unfoldable pub percent : PacketDirection → Quota → ℤ
percent packet_recv q = q.max_percent_recv
percent packet_send q = q.max_percent_send
percent other q = q.max_percent_send

-- The threshold of CheckExceedsQuota, raised to the minimum amount.
unfoldable pub threshold : PacketDirection → Quota → ℤ → ℤ → ℤ
unfolding percent
threshold direction q total_value min_rate_limit_amount =
    let share = quo (total_value *ℤ percent direction q) 100 in
    if ltb_ℤ share min_rate_limit_amount then min_rate_limit_amount else share

-- CheckExceedsQuota
unfoldable pub check_exceeds_quota : PacketDirection → Quota → ℤ → ℤ → ℤ → Bool
check_exceeds_quota direction q amount total_value min_rate_limit_amount =
    if is_zero total_value
    then false
    else ltb_ℤ (threshold direction q total_value min_rate_limit_amount) amount

-- NewFlow
unfoldable pub new_flow : ℤ → Flow
new_flow channel_value = record { inflow = pos 0; outflow = pos 0; channel_value = channel_value }

-- AddInflow
unfoldable pub add_inflow : Flow → ℤ → Quota → ℤ → Result Error Flow
add_inflow f amount q min_rate_limit =
    let net_inflow = f.inflow -ℤ f.outflow +ℤ amount in
    if check_exceeds_quota packet_recv q net_inflow f.channel_value min_rate_limit
    then err quota_exceeded
    else ok (record f { inflow = f.inflow +ℤ amount })

-- AddOutflow
unfoldable pub add_outflow : Flow → ℤ → Quota → ℤ → Result Error Flow
add_outflow f amount q min_rate_limit =
    let net_outflow = f.outflow -ℤ f.inflow +ℤ amount in
    if check_exceeds_quota packet_send q net_outflow f.channel_value min_rate_limit
    then err quota_exceeded
    else ok (record f { outflow = f.outflow +ℤ amount })
