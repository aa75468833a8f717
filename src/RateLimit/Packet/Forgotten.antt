-- ===== src/RateLimit/Packet/Forgotten.antt =====
-- Packets in flight when governance replaces or resets the limit that counted them.
use composable_centauri.Base.{ℕ, ◌≡◌, ◌≤◌, ◌++◌, length, some, true, arith}
use composable_centauri.Base.Int.{ℤ, pos, ◌-ℤ◌}
use composable_centauri.Base.Bytes.{Bytes, eq_bytes_iff}
use composable_centauri.Base.Exec.{ok}
use composable_centauri.Kv.{Kv}
use composable_centauri.RateLimit.State.{RateLimit, State, Context}
use composable_centauri.RateLimit.Quota.{new_flow}
use composable_centauri.RateLimit.Keeper.{
  MsgRateLimit, get_rate_limit, set_rate_limit, limited_denom, fresh_rate_limit, update_rate_limit,
  undo_send_packet, check_packet_sent_during_current_quota, remove_pending_send_packet,
  remove_all_channel_pending_send_packets,
}
use composable_centauri.RateLimit.Keeper.Pending.{remove_all_channel_pending_send_packets-longer}
use composable_centauri.RateLimit.Packet.Undo.{undo-pending, undo-not_pending}
use composable_centauri.RateLimit.Invariant.Limits.{key_of, set_rate_limit-get}
use composable_centauri.RateLimit.Invariant.Governance.{update_rate_limit-found}

module _ ⦃kv : Kv⦄ where
  -- The limit that a write put in place is the one that is read.
  written-found :
      (r : RateLimit) (s : State)
      → get_rate_limit r.path.denom r.path.channel_id (set_rate_limit r s) ≡ some r
  unfolding get_rate_limit
  written-found r s =
      ground (arith, set_rate_limit-get r (key_of r) s, eq_bytes_iff (key_of r) (key_of r))

  removed-found :
      (c : Bytes) (n : ℕ) (r : RateLimit) (s : State)
      → get_rate_limit r.path.denom r.path.channel_id
          (remove_pending_send_packet c n (set_rate_limit r s))
        ≡ some r
  unfolding remove_pending_send_packet get_rate_limit
  removed-found c n r s =
      ground (arith, set_rate_limit-get r (key_of r) s, eq_bytes_iff (key_of r) (key_of r))

  still_pending :
      (c : Bytes) (n : ℕ) (r : RateLimit) (s : State)
      → check_packet_sent_during_current_quota c n s ≡ true
      → check_packet_sent_during_current_quota c n (set_rate_limit r s) ≡ true
  unfolding check_packet_sent_during_current_quota set_rate_limit
  still_pending c n r s h = h

  module _ ⦃ctx : Context⦄ where
    -- An update of a limit puts its flow at zero but forgets no packet in flight: when a packet
    -- that was sent before fails after the update, its amount is taken from the new outflow, which
    -- comes to zero less the amount.
    pub update_rate_limit-then_undo :
        (msg : MsgRateLimit) (n : ℕ) (amount : ℤ) {r : RateLimit} (s : State)
        → let denom = limited_denom msg.denom msg.channel_id s in
          get_rate_limit denom msg.channel_id s ≡ some r
          → check_packet_sent_during_current_quota msg.channel_id n s ≡ true
          → let updated = (update_rate_limit msg s).1 in
            let undone = (undo_send_packet msg.channel_id n denom amount updated).1 in
            let fresh = fresh_rate_limit denom msg in
            get_rate_limit denom msg.channel_id undone
            ≡ some (record fresh { flow = record fresh.flow { outflow = pos 0 -ℤ amount } })
    unfolding fresh_rate_limit new_flow
    update_rate_limit-then_undo msg n amount s found pending =
        let denom : Bytes = limited_denom msg.denom msg.channel_id s in
        let fresh : RateLimit = fresh_rate_limit denom msg in
        rw
          (
            update_rate_limit-found msg s found,
            undo-pending msg.channel_id n denom amount fresh (set_rate_limit fresh s)
                (still_pending msg.channel_id n fresh s pending) (written-found fresh s),
          )
          (removed-found msg.channel_id n
            (record fresh { flow = record fresh.flow { outflow = pos 0 -ℤ amount } })
            (set_rate_limit fresh s))

  -- After a reset on one channel, a packet that was in flight on a channel whose name continues the
  -- first one's and fails takes nothing back, if the longer name has sixteen bytes at most.
  pub remove_all_channel_pending_send_packets-then_undo :
      (c e : Bytes) (n : ℕ) (denom : Bytes) (amount : ℤ) (s : State)
      → length (c ++ e) ≤ 16
      → let reset = remove_all_channel_pending_send_packets c s in
        undo_send_packet (c ++ e) n denom amount reset ≡ (ok tt, reset)
  remove_all_channel_pending_send_packets-then_undo c e n denom amount s h =
      undo-not_pending (c ++ e) n denom amount _
        (remove_all_channel_pending_send_packets-longer c e n s h)
