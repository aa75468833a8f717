-- ===== src/RateLimit/Invariant/Packets.antt =====
-- The packet callbacks keep the stored limits good.
use composable_centauri.Base.{
  ℕ, ◌≡◌, refl, inl, inr, ◌⊎◌, [], ◌∷◌, Bool, true, false, some, none, arith, Bool-cases,
  Option-cases,
}
use composable_centauri.Base.Int.{ℤ, pos, ◌≤ℤ◌, ◌-ℤ◌}
use composable_centauri.Base.Bytes.{Bytes}
use composable_centauri.Base.Exec.{ok, err, Result-cases}
use composable_centauri.Kv.{Kv}
use composable_centauri.Sdk.{Sdk, Packet, Acknowledgement, ack_result, ack_error, ack_nothing}
use composable_centauri.RateLimit.State.{
  PacketDirection, packet_send, packet_recv, RateLimit, Error, State,
}
use composable_centauri.RateLimit.Keeper.{
  RateLimitedPacketInfo, get_rate_limit, set_rate_limit, undo_send_packet,
  check_rate_limit_and_update_flow, check_packet_sent_during_current_quota,
  emit_transfer_denied_event, remove_pending_send_packet, set_pending_send_packet,
}
use composable_centauri.RateLimit.Keeper.Check.{
  check_rate_limit_and_update_flow-send, check_rate_limit_and_update_flow-recv, sent, received,
}
use composable_centauri.RateLimit.Packet.{
  parse_packet_info, send_rate_limited_packet, receive_rate_limited_packet, record_send,
  acknowledge_rate_limited_packet, timeout_rate_limited_packet, settle_acknowledgement,
}
use composable_centauri.RateLimit.Invariant.Limits.{
  IsGood, IsSound, set_rate_limit-IsSound, same_limits-IsSound,
}
use composable_centauri.RateLimit.Invariant.Good.{sent-IsGood, received-IsGood, undone-IsGood}

module _ ⦃kv : Kv⦄ where
  pub found-IsGood :
      (d c : Bytes) {r : RateLimit} (s : State)
      → IsSound s
      → get_rate_limit d c s ≡ some r
      → IsGood r
  unfolding get_rate_limit
  found-IsGood d c s h e = h.good _ _ e

  check_send-IsSound :
      (p : RateLimitedPacketInfo) (s : State)
      → IsSound s
      → IsSound (check_rate_limit_and_update_flow packet_send p s).1
  unfolding emit_transfer_denied_event
  check_send-IsSound p s h = elim (check_rate_limit_and_update_flow-send p s) [
    | inl (_, e) ↦ rw e h
    | inr (r, found, inl (fits, e)) ↦ rw e (
        set_rate_limit-IsSound (sent r p.amount) s
          (sent-IsGood r p.amount (found-IsGood p.denom p.channel_id s h found) fits) h)
    | inr (r, found, inr (_, e)) ↦ rw e (same_limits-IsSound s _ refl h)
  ]

  check_recv-IsSound :
      (p : RateLimitedPacketInfo) (s : State)
      → pos 0 ≤ℤ p.amount
      → IsSound s
      → IsSound (check_rate_limit_and_update_flow packet_recv p s).1
  unfolding emit_transfer_denied_event
  check_recv-IsSound p s nonneg h = elim (check_rate_limit_and_update_flow-recv p s) [
    | inl (_, e) ↦ rw e h
    | inr (r, found, inl (_, e)) ↦ rw e (
        set_rate_limit-IsSound (received r p.amount) s
          (received-IsGood r p.amount nonneg (found-IsGood p.denom p.channel_id s h found)) h)
    | inr (r, found, inr (_, e)) ↦ rw e (same_limits-IsSound s _ refl h)
  ]

  undo-kept :
      (c : Bytes) (n : ℕ) (d : Bytes) (a : ℤ) (s : State)
      → (get_rate_limit d c s ≡ none) ⊎ (check_packet_sent_during_current_quota c n s ≡ false)
      → undo_send_packet c n d a s ≡ (ok tt, s)
  unfolding undo_send_packet
  undo-kept c n d a s h = ground arith

  undo-written :
      (c : Bytes) (n : ℕ) (d : Bytes) (a : ℤ) (r : RateLimit) (s : State)
      → get_rate_limit d c s ≡ some r
      → check_packet_sent_during_current_quota c n s ≡ true
      → (undo_send_packet c n d a s).1.rate_limits
        ≡ (set_rate_limit
            (record r { flow = record r.flow { outflow = r.flow.outflow -ℤ a } })
            s).rate_limits
  unfolding undo_send_packet remove_pending_send_packet
  undo-written c n d a r s e h = ground arith

  pub undo_send_packet-IsSound :
      (c : Bytes) (n : ℕ) (d : Bytes) (a : ℤ) (s : State)
      → pos 0 ≤ℤ a
      → IsSound s
      → IsSound (undo_send_packet c n d a s).1
  undo_send_packet-IsSound c n d a s nonneg h = elim (Option-cases (get_rate_limit d c s)) [
    | inl missing ↦ rw (undo-kept c n d a s (inl missing)) h
    | inr (r, found) ↦ elim (Bool-cases (check_packet_sent_during_current_quota c n s)) [
      | inr settled ↦ rw (undo-kept c n d a s (inr settled)) h
      | inl pending ↦
          same_limits-IsSound (set_rate_limit _ s) _ (undo-written c n d a r s found pending)
            (set_rate_limit-IsSound _ s (undone-IsGood r a nonneg (found-IsGood d c s h found)) h)
    ]
  ]

  record_send-limits :
      (p : RateLimitedPacketInfo) (n : ℕ) (b : Bool) (s : State)
      → (record_send p n b s).rate_limits ≡ s.rate_limits
  unfolding record_send set_pending_send_packet
  record_send-limits p n true s = refl
  record_send-limits p n false s = refl

module _ ⦃sdk : Sdk⦄ ⦃kv : Kv⦄ where
  -- The amount that a packet's data names is not negative.
  abbrev pub IsPositive : Packet → PacketDirection → Type 0
  IsPositive packet d =
      (p : RateLimitedPacketInfo) → parse_packet_info packet d ≡ ok p → pos 0 ≤ℤ p.amount

  send-limits :
      (packet : Packet) (p : RateLimitedPacketInfo) (s : State)
      → parse_packet_info packet packet_send ≡ ok p
      → (send_rate_limited_packet packet s).1.rate_limits
        ≡ (check_rate_limit_and_update_flow packet_send p s).1.rate_limits
  unfolding send_rate_limited_packet
  send-limits packet p s e =
      elim (Result-cases (check_rate_limit_and_update_flow packet_send p s).0) [
        | inl (b, c) ↦ ground (
          arith,
          record_send-limits p packet.sequence b
              (check_rate_limit_and_update_flow packet_send p s).1,
        )
        | inr (x, c) ↦ ground arith
      ]

  send-unreadable_state :
      (packet : Packet) {x : Error} (s : State)
      → parse_packet_info packet packet_send ≡ err x
      → (send_rate_limited_packet packet s).1 ≡ s
  unfolding send_rate_limited_packet
  send-unreadable_state packet s e = ground arith

  pub send-IsSound :
      (packet : Packet) (s : State) → IsSound s → IsSound (send_rate_limited_packet packet s).1
  send-IsSound packet s h = elim (Result-cases (parse_packet_info packet packet_send)) [
    | inr (x, e) ↦ rw (send-unreadable_state packet s e) h
    | inl (p, e) ↦
        same_limits-IsSound (check_rate_limit_and_update_flow packet_send p s).1 _
          (send-limits packet p s e) (check_send-IsSound p s h)
  ]

  receive-parsed :
      (packet : Packet) (p : RateLimitedPacketInfo) (s : State)
      → parse_packet_info packet packet_recv ≡ ok p
      → (receive_rate_limited_packet packet s).1
        ≡ (check_rate_limit_and_update_flow packet_recv p s).1
  unfolding receive_rate_limited_packet
  receive-parsed packet p s e = ground arith

  receive-unreadable :
      (packet : Packet) {x : Error} (s : State)
      → parse_packet_info packet packet_recv ≡ err x
      → (receive_rate_limited_packet packet s).1 ≡ s
  unfolding receive_rate_limited_packet
  receive-unreadable packet s e = ground arith

  pub receive-IsSound :
      (packet : Packet) (s : State)
      → IsPositive packet packet_recv
      → IsSound s
      → IsSound (receive_rate_limited_packet packet s).1
  receive-IsSound packet s nonneg h = elim (Result-cases (parse_packet_info packet packet_recv)) [
    | inr (x, e) ↦ rw (receive-unreadable packet s e) h
    | inl (p, e) ↦ rw (receive-parsed packet p s e) (check_recv-IsSound p s (nonneg p e) h)
  ]

  settle-IsSound :
      (p : RateLimitedPacketInfo) (n : ℕ) (response : Acknowledgement) (s : State)
      → pos 0 ≤ℤ p.amount
      → IsSound s
      → IsSound (settle_acknowledgement p n response s).1
  unfolding settle_acknowledgement remove_pending_send_packet
  settle-IsSound p n (ack_result []) s nonneg h = h
  settle-IsSound p n (ack_result (b ∷ bs)) s nonneg h = same_limits-IsSound s _ refl h
  settle-IsSound p n (ack_error e) s nonneg h =
      undo_send_packet-IsSound p.channel_id n p.denom p.amount s nonneg h
  settle-IsSound p n ack_nothing s nonneg h =
      undo_send_packet-IsSound p.channel_id n p.denom p.amount s nonneg h

  pub acknowledge-IsSound :
      (packet : Packet) (ack : Bytes) (s : State)
      → IsPositive packet packet_send
      → IsSound s
      → IsSound (acknowledge_rate_limited_packet packet ack s).1
  unfolding acknowledge_rate_limited_packet
  acknowledge-IsSound packet ack s nonneg h =
      elim (Result-cases (parse_packet_info packet packet_send)) [
        | inr (x, e) ↦ rw e h
        | inl (p, e) ↦ elim (Option-cases (sdk.unmarshal_acknowledgement ack)) [
          | inl unreadable ↦ rw (e, unreadable) h
          | inr (response, read) ↦
              rw (e, read) (settle-IsSound p packet.sequence response s (nonneg p e) h)
        ]
      ]

  pub timeout-IsSound :
      (packet : Packet) (s : State)
      → IsPositive packet packet_send
      → IsSound s
      → IsSound (timeout_rate_limited_packet packet s).1
  unfolding timeout_rate_limited_packet
  timeout-IsSound packet s nonneg h = elim (Result-cases (parse_packet_info packet packet_send)) [
    | inr (x, e) ↦ rw e h
    | inl (p, e) ↦
        rw e
          (undo_send_packet-IsSound p.channel_id packet.sequence p.denom p.amount s (nonneg p e) h)
  ]
