-- ===== src/RateLimit/Samples/Governance.antt =====
-- Requests, resets and epochs at concrete values.
use composable_centauri.Base.{ℕ, suc, ◌≡◌, ◌⊎◌, refl, subst, ◌≢◌, true, false, some, arith}
use composable_centauri.Base.Int.{pos, ◌+ℤ◌, ◌-ℤ◌}
use composable_centauri.Base.Bytes.{Bytes, bytes, eq_bytes}
use composable_centauri.Base.Exec.{ok, err}
use composable_centauri.Kv.{lookup}
use composable_centauri.Kv.Assoc
use composable_centauri.Kv.Assoc.{assoc_kv, no_entries}
use composable_centauri.Sdk.{Packet}
use composable_centauri.RateLimit.State.{
  RateLimit, State, EpochInfo, packet_recv, quota_exceeded, invalid_signer,
}
use composable_centauri.RateLimit.Keys.{
  get_rate_limit_item_key, get_pending_send_packet_key, copy_into, put_uint64,
}
use composable_centauri.RateLimit.Keeper.{
  MsgRateLimit, get_rate_limit, set_rate_limit, fresh_rate_limit, update_rate_limit,
  undo_send_packet, check_packet_sent_during_current_quota, limited_denom,
  emit_transfer_denied_event, set_pending_send_packet, remove_all_channel_pending_send_packets,
}
use composable_centauri.RateLimit.Keeper.Check.{IsUnlimited, AdmitsRecv, RefusesRecv, received}
use composable_centauri.RateLimit.Packet.Forgotten.{
  update_rate_limit-then_undo, remove_all_channel_pending_send_packets-then_undo,
}
use composable_centauri.RateLimit.Msgs.{
  add_transfer_rate_limit, update_transfer_rate_limit, remove_transfer_rate_limit,
  reset_transfer_rate_limit,
}
use composable_centauri.RateLimit.Invariant.Governance.{handlers-refuse}
use composable_centauri.RateLimit.Epoch.{end_epoch, get_epoch_info, day_epoch}
use composable_centauri.RateLimit.Epoch.Renewal.{IsPlain, IsOwn, renewed_entry, end_epoch-renewed}
use composable_centauri.RateLimit.Middleware.{Application, answered, denied, on_recv_packet}
use composable_centauri.RateLimit.Middleware.Recv.{on_recv_packet-cases}
use composable_centauri.RateLimit.Samples.{
  sample_sdk, sample_context, sample_limit, sample_message, sample_packet, sample_info, one_limit,
  one_limit-IsSound, no_limits,
}
use composable_centauri.RateLimit.Invariant.Limits.{IsSound, set_rate_limit-get}
use composable_centauri.Base.Decimal.{parse_uint, parse_digits, within_uint64}
use composable_centauri.RateLimit.Packet.{
  parse_packet_info, own_denom, own_channel, parse_denom_from_recv_packet,
}

abbrev stranger : Bytes
stranger = bytes "eve"

abbrev forged : MsgRateLimit
forged = record sample_message { authority = stranger }

eve-differs : stranger ≢ bytes "gov"
eve-differs = ground arith

handlers-refuse_example :
    (add_transfer_rate_limit forged one_limit ≡ (err invalid_signer, one_limit))
    × (update_transfer_rate_limit forged one_limit ≡ (err invalid_signer, one_limit))
    × (remove_transfer_rate_limit stranger (bytes "upica") (bytes "channel-1") one_limit
        ≡ (err invalid_signer, one_limit))
    × (reset_transfer_rate_limit stranger (bytes "upica") (bytes "channel-1") one_limit
        ≡ (err invalid_signer, one_limit))
handlers-refuse_example =
    handlers-refuse forged stranger (bytes "upica") (bytes "channel-1") one_limit eve-differs
      eve-differs

-- Packet 3 is in flight on channel-1.
abbrev in_flight : State
in_flight = set_pending_send_packet (bytes "channel-1") 3 one_limit

abbrev in_flight_on_10 : State
in_flight_on_10 = set_pending_send_packet (bytes "channel-10") 3 one_limit

remove_all_channel_pending_send_packets-then_undo_example :
    let reset = remove_all_channel_pending_send_packets (bytes "channel-1") in_flight_on_10 in
    undo_send_packet (bytes "channel-10") 3 (bytes "upica") (pos 60) reset ≡ (ok tt, reset)
remove_all_channel_pending_send_packets-then_undo_example =
    remove_all_channel_pending_send_packets-then_undo (bytes "channel-1") (bytes "0") 3
      (bytes "upica") (pos 60) in_flight_on_10 (omega arith)

in_flight-found :
    get_rate_limit
      (limited_denom (bytes "upica") (bytes "channel-1") in_flight)
      (bytes "channel-1")
      in_flight
    ≡ some sample_limit
unfolding get_rate_limit limited_denom set_rate_limit set_pending_send_packet lookup Assoc.get
    Assoc.set Assoc.insert Assoc.without Assoc.lt_bytes no_entries get_rate_limit_item_key eq_bytes
in_flight-found = refl

in_flight-pending : check_packet_sent_during_current_quota (bytes "channel-1") 3 in_flight ≡ true
unfolding check_packet_sent_during_current_quota set_pending_send_packet set_rate_limit lookup
    Assoc.get Assoc.set Assoc.insert Assoc.without Assoc.lt_bytes no_entries eq_bytes
    get_pending_send_packet_key copy_into put_uint64
in_flight-pending = refl

update_rate_limit-then_undo_example :
    let denom = limited_denom (bytes "upica") (bytes "channel-1") in_flight in
    let updated = (update_rate_limit sample_message in_flight).1 in
    let undone = (undo_send_packet (bytes "channel-1") 3 denom (pos 60) updated).1 in
    let fresh = fresh_rate_limit denom sample_message in
    get_rate_limit denom (bytes "channel-1") undone
    ≡ some (record fresh { flow = record fresh.flow { outflow = pos 0 -ℤ pos 60 } })
update_rate_limit-then_undo_example =
    update_rate_limit-then_undo sample_message 3 (pos 60) in_flight in_flight-found
      in_flight-pending

abbrev day : EpochInfo
day = record {
  identifier = day_epoch;
  start_time = pos 0;
  duration = pos 50;
  current_epoch = pos 4;
  current_epoch_start_time = pos 0;
  epoch_counting_started = true;
  current_epoch_start_height = pos 2;
}

-- Beside the limit on upica, the bridge carries ppica on the same channel.
abbrev bridged : State
bridged = record one_limit {
  registry = record one_limit.registry {
    info_by_native_denom =
        assoc_kv.set (bytes "ppica")
          (record {
            ibc_denom = bytes "ibc/1";
            channel_id = bytes "channel-1";
            native_denom = bytes "ppica";
            asset_id = bytes "1";
          })
          assoc_kv.empty;
  };
}

ppica-IsTakenOver : limited_denom (bytes "ppica") (bytes "channel-1") bridged ≡ bytes "ibc/1"
unfolding limited_denom Assoc.get Assoc.set Assoc.insert Assoc.without lookup no_entries eq_bytes
ppica-IsTakenOver = refl

sample_limit-IsOwn : IsOwn sample_limit bridged
unfolding limited_denom Assoc.get Assoc.set Assoc.insert Assoc.without lookup no_entries eq_bytes
sample_limit-IsOwn = refl

only_limit :
    (k : Bytes) (r : RateLimit) → assoc_kv.get k one_limit.rate_limits ≡ some r → sample_limit ≡ r
unfolding no_entries
only_limit k r found =
    ground (arith, set_rate_limit-get sample_limit k no_limits, Assoc.get-empty {V = RateLimit} k)

bridged-IsPlain : IsPlain bridged
unfolding set_rate_limit
bridged-IsPlain k r found =
    subst (λ limit. IsOwn limit bridged) (only_limit k r found) sample_limit-IsOwn

bridged-IsSound : IsSound bridged
bridged-IsSound = record { keyed = one_limit-IsSound.keyed; good = one_limit-IsSound.good }

end_epoch-renewed_example :
    let (result, t) = end_epoch day bridged in
    (result ≡ ok false)
    × ((k : Bytes)
        → assoc_kv.get k t.rate_limits ≡ renewed_entry 4 (assoc_kv.get k bridged.rate_limits))
    × (get_epoch_info day_epoch t ≡ record day {
      current_epoch = pos 5;
      current_epoch_start_time = pos 0 +ℤ pos 50;
      current_epoch_start_height = pos 7;
    })
end_epoch-renewed_example =
    end_epoch-renewed day 4 bridged refl refl (omega arith) bridged-IsPlain bridged-IsSound

-- Packet 3 in on channel-1.
abbrev arriving : Packet
arriving = record sample_packet {
  source_channel = bytes "channel-8";
  dest_channel = bytes "channel-1";
}

arriving-read : parse_packet_info arriving packet_recv ≡ ok sample_info
unfolding parse_packet_info parse_uint parse_digits within_uint64 own_denom own_channel
    parse_denom_from_recv_packet
arriving-read = refl

-- The world counts the packets that the application has received.
abbrev counting_app : Application ℕ
counting_app = record {
  receives = λ packet n. (bytes "done", suc n);
  acknowledges = λ packet ack n. (ok tt, n);
  times_out = λ packet n. (ok tt, n);
}

on_recv_packet-cases_example :
    (IsUnlimited sample_info one_limit
      × (on_recv_packet counting_app arriving (one_limit, 4)
          ≡ (answered (bytes "done"), (one_limit, 5))))
    ⊎ ((r : RateLimit) × (get_rate_limit (bytes "upica") (bytes "channel-1") one_limit ≡ some r)
        × ((AdmitsRecv r (pos 60)
              × (on_recv_packet counting_app arriving (one_limit, 4)
                  ≡ (answered (bytes "done"), (set_rate_limit (received r (pos 60)) one_limit, 5))))
            ⊎ (RefusesRecv r (pos 60)
                × (on_recv_packet counting_app arriving (one_limit, 4) ≡ (
                  denied quota_exceeded,
                  (
                    emit_transfer_denied_event
                        (bytes "upica")
                        (bytes "channel-1")
                        packet_recv
                        (pos 60)
                        quota_exceeded
                        one_limit,
                    4,
                  ),
                )))))
on_recv_packet-cases_example =
    on_recv_packet-cases counting_app arriving sample_info one_limit 4 arriving-read
