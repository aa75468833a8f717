-- ===== src/RateLimit/Middleware/Recv.antt =====
-- A packet in, from the middleware's callback down to the flow.
use composable_centauri.Base.{◌≡◌, ◌⊎◌, inl, inr, some, Bool, arith}
use composable_centauri.Base.Exec.{ok, err}
use composable_centauri.Kv.{Kv}
use composable_centauri.Sdk.{Sdk, Packet}
use composable_centauri.RateLimit.State.{packet_recv, RateLimit, State, quota_exceeded}
use composable_centauri.RateLimit.Keeper.{
  RateLimitedPacketInfo, get_rate_limit, set_rate_limit, check_rate_limit_and_update_flow,
  emit_transfer_denied_event,
}
use composable_centauri.RateLimit.Keeper.Check.{
  received, AdmitsRecv, RefusesRecv, IsUnlimited, check_rate_limit_and_update_flow-recv,
}
use composable_centauri.RateLimit.Packet.{parse_packet_info, receive_rate_limited_packet}
use composable_centauri.RateLimit.Middleware.{Application, answered, denied, on_recv_packet}

module _ ⦃sdk : Sdk⦄ ⦃kv : Kv⦄ {World : Type 0} where
  recv-passed :
      (app : Application World) (packet : Packet) {p : RateLimitedPacketInfo} {b : Bool}
      (s t : State) (w : World)
      → parse_packet_info packet packet_recv ≡ ok p
      → check_rate_limit_and_update_flow packet_recv p s ≡ (ok b, t)
      → on_recv_packet app packet (s, w)
        ≡ (answered (app.receives packet w).0, (t, (app.receives packet w).1))
  unfolding on_recv_packet receive_rate_limited_packet
  recv-passed app packet s t w e c = ground arith

  recv-denied :
      (app : Application World) (packet : Packet) {p : RateLimitedPacketInfo} (s t : State)
      (w : World)
      → parse_packet_info packet packet_recv ≡ ok p
      → check_rate_limit_and_update_flow packet_recv p s ≡ (err quota_exceeded, t)
      → on_recv_packet app packet (s, w) ≡ (denied quota_exceeded, (t, w))
  unfolding on_recv_packet receive_rate_limited_packet
  recv-denied app packet s t w e c = ground arith

  pub on_recv_packet-cases :
      (app : Application World) (packet : Packet) (p : RateLimitedPacketInfo) (s : State)
      (w : World)
      → parse_packet_info packet packet_recv ≡ ok p
      → let (answer, w') = app.receives packet w in
        (IsUnlimited p s × (on_recv_packet app packet (s, w) ≡ (answered answer, (s, w'))))
        ⊎ ((r : RateLimit) × (get_rate_limit p.denom p.channel_id s ≡ some r)
            × ((AdmitsRecv r p.amount
                  × (on_recv_packet app packet (s, w)
                      ≡ (answered answer, (set_rate_limit (received r p.amount) s, w'))))
                ⊎ (RefusesRecv r p.amount
                    × (on_recv_packet app packet (s, w) ≡ (
                      denied quota_exceeded,
                      (
                        emit_transfer_denied_event p.denom p.channel_id packet_recv p.amount
                            quota_exceeded s,
                        w,
                      ),
                    )))))
  on_recv_packet-cases app packet p s w e = elim (check_rate_limit_and_update_flow-recv p s) [
    | inl (free, c) ↦ inl (free, recv-passed app packet s _ w e c)
    | inr (r, found, inl (fits, c)) ↦ inr (r, found, inl (fits, recv-passed app packet s _ w e c))
    | inr (r, found, inr (over, c)) ↦ inr (r, found, inr (over, recv-denied app packet s _ w e c))
  ]
