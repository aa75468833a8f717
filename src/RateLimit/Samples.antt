-- ===== src/RateLimit/Samples.antt =====
-- Concrete stores, packets and blocks of x/ratelimit, on which the theorems are evaluated.
mod Governance
mod Keys
use composable_centauri.Base.{
  ℕ, ◌≡◌, ◌≢◌, ◌<◌, ◌≤◌, refl, inl, inr, ◌⊎◌, Bool, true, false, Option, none, some, List, [], ◌∷◌,
  ◌++◌, map, arith,
}
use composable_centauri.Base.Int.{ℤ, pos, quo, ◌*ℤ◌, ◌+ℤ◌, ◌-ℤ◌}
use composable_centauri.Base.Bytes.{Bytes, bytes, eq_bytes, eq_bytes_iff}
use composable_centauri.Base.Exec.{Result, ok, err}
use composable_centauri.Base.Decimal.{parse_uint, parse_digits, within_uint64}
use composable_centauri.Kv.{Kv}
use composable_centauri.Kv.{lookup}
use composable_centauri.Kv.Assoc
use composable_centauri.Kv.Assoc.{assoc_kv, no_entries}
use composable_centauri.Sdk.{Sdk, Packet, Acknowledgement, ack_result, ack_error}
use composable_centauri.TransferMiddleware.Registry.{Registry}
use composable_centauri.RateLimit.State.{
  RateLimit, State, Context, Flow, Quota, ChannelPath, EpochInfo, packet_send, packet_recv,
}
use composable_centauri.RateLimit.State.{quota_exceeded}
use composable_centauri.RateLimit.Keeper.{
  RateLimitedPacketInfo, MsgRateLimit, set_rate_limit, get_rate_limit,
  check_rate_limit_and_update_flow, emit_transfer_denied_event, is_address_pair_whitelisted,
  update_flow, check_packet_sent_during_current_quota,
}
use composable_centauri.RateLimit.Keeper.Check.{
  sent, IsUnlimited, AdmitsSend, RefusesSend, check_rate_limit_and_update_flow-send,
}
use composable_centauri.RateLimit.Keys.{get_rate_limit_item_key, get_address_whitelist_key}
use composable_centauri.RateLimit.Quota.{add_outflow, check_exceeds_quota, threshold, percent}
use composable_centauri.RateLimit.Msgs.{add_transfer_rate_limit}
use composable_centauri.RateLimit.Packet.{
  send_rate_limited_packet, timeout_rate_limited_packet, acknowledge_rate_limited_packet,
  parse_packet_info, own_denom, own_channel, local_denom, parse_denom_from_send_packet,
}
use composable_centauri.RateLimit.Packet.Undo.{SameStores, send_rate_limited_packet-undone}
use composable_centauri.RateLimit.Epoch.{begin_blocker}
use composable_centauri.RateLimit.Invariant.Limits.{IsGood, IsSound, set_rate_limit-IsSound}
use composable_centauri.RateLimit.Invariant.Good.{zero_flow-IsGood}
use composable_centauri.RateLimit.Invariant.Epochs.{Succeeds, begin_blocker-Succeeds}
use composable_centauri.RateLimit.Invariant.Reach.{adds, sends, here, next, Reach-IsSound}

abbrev as_int : Option ℕ → Option ℤ
as_int none = none
as_int (some n) = some (pos n)

abbrev as_acknowledgement : Bytes → Option Acknowledgement
as_acknowledgement [] = none
as_acknowledgement (b ∷ bs) = some (ack_error (b ∷ bs))

-- A library in which every denom is native, the packet's payload is the amount, and any
-- acknowledgement is an error.
instance abbrev pub sample_sdk : Sdk
sample_sdk = record {
  acc_address_from_bech32 = λ b. some b;
  is_channel_identifier = λ b. true;
  unmarshal_packet_data = λ payload. some (record {
    denom = bytes "upica";
    amount = payload;
    sender = bytes "alice";
    receiver = bytes "bob";
    memo = [];
  });
  unmarshal_acknowledgement = as_acknowledgement;
  new_int_from_string = λ b. as_int (parse_uint b);
  parse_denom_trace = λ d. record { path = []; base_denom = d };
  ibc_denom = λ t. t.base_denom;
  receiver_chain_is_source = λ p c d. false;
  get_denom_prefix = λ p c. [];
}

-- A block of the height 7, with a supply of 1000 of every denom.
instance abbrev pub sample_context : Context
sample_context = record {
  block_time = pos 100;
  block_height = pos 7;
  authority = bytes "gov";
  get_supply = λ d. pos 1000;
}

abbrev pub sample_registry : Registry
sample_registry = record {
  authority = bytes "gov";
  duration = pos 10;
  info_by_native_denom = assoc_kv.empty;
  info_by_asset_id = assoc_kv.empty;
  native_denom_by_ibc_denom = assoc_kv.empty;
  rly_addresses = assoc_kv.empty;
  remove_list = assoc_kv.empty;
}

abbrev pub no_limits : State
no_limits = record {
  rate_limits = assoc_kv.empty;
  pending_send_packets = assoc_kv.empty;
  address_whitelist = assoc_kv.empty;
  epochs = assoc_kv.empty;
  events = [];
  registry = sample_registry;
}

-- Ten percent of the supply may leave on channel-1 and twenty may enter.
abbrev pub sample_limit : RateLimit
sample_limit = record {
  path = record { denom = bytes "upica"; channel_id = bytes "channel-1" };
  quota = record { max_percent_send = pos 10; max_percent_recv = pos 20; duration_hours = 1 };
  flow = record { inflow = pos 0; outflow = pos 0; channel_value = pos 1000 };
  min_rate_limit_amount = pos 5;
}

abbrev pub sample_message : MsgRateLimit
sample_message = record {
  authority = bytes "gov";
  denom = bytes "upica";
  channel_id = bytes "channel-1";
  max_percent_send = pos 10;
  max_percent_recv = pos 20;
  min_rate_limit_amount = pos 5;
  duration_hours = 1;
}

abbrev pub one_limit : State
one_limit = set_rate_limit sample_limit no_limits

-- Packet 3 out on channel-1, with an amount of 60.
abbrev pub sample_packet : Packet
sample_packet = record {
  sequence = 3;
  source_port = bytes "transfer";
  source_channel = bytes "channel-1";
  dest_port = bytes "transfer";
  dest_channel = bytes "channel-8";
  payload = bytes "60";
}

abbrev pub sample_info : RateLimitedPacketInfo
sample_info = record {
  channel_id = bytes "channel-1";
  denom = bytes "upica";
  amount = pos 60;
  sender = bytes "alice";
  receiver = bytes "bob";
}

no_limits-IsSound : IsSound no_limits
no_limits-IsSound = record {
  keyed = λ k r e. ground (arith, assoc_kv.get-empty {V = RateLimit} k);
  good = λ k r e. absurd (ground (arith, assoc_kv.get-empty {V = RateLimit} k));
}

sample_limit-IsGood : IsGood sample_limit
sample_limit-IsGood =
    zero_flow-IsGood sample_limit refl refl (ground arith) (ground arith)
      (ground arith, ground arith, ground arith, ground arith)

pub one_limit-IsSound : IsSound one_limit
one_limit-IsSound =
    set_rate_limit-IsSound sample_limit no_limits sample_limit-IsGood no_limits-IsSound

Reach-IsSound_example :
    IsSound
      (send_rate_limited_packet sample_packet
        (add_transfer_rate_limit sample_message no_limits).1).1
Reach-IsSound_example =
    Reach-IsSound no_limits-IsSound
      (next (next here (adds sample_context sample_message)) (sends sample_packet))

begin_blocker-Succeeds_example : Succeeds (begin_blocker one_limit)
begin_blocker-Succeeds_example = begin_blocker-Succeeds one_limit one_limit-IsSound

sample_packet-fresh : check_packet_sent_during_current_quota (bytes "channel-1") 3 one_limit ≡ false
unfolding check_packet_sent_during_current_quota Assoc.get no_entries set_rate_limit lookup
sample_packet-fresh = refl

sample_packet-sent : (send_rate_limited_packet sample_packet one_limit).0 ≡ ok tt
unfolding send_rate_limited_packet parse_packet_info parse_uint check_rate_limit_and_update_flow
    get_rate_limit Assoc.get Assoc.set Assoc.insert Assoc.without Assoc.lt_bytes lookup no_entries
    set_rate_limit get_rate_limit_item_key own_denom own_channel is_address_pair_whitelisted
    update_flow add_outflow check_exceeds_quota threshold eq_bytes parse_digits within_uint64 quo
    ◌*ℤ◌ ◌+ℤ◌ ◌-ℤ◌ local_denom parse_denom_from_send_packet percent get_address_whitelist_key
sample_packet-sent = refl

send_rate_limited_packet-undone_example :
    let after = (send_rate_limited_packet sample_packet one_limit).1 in
    let timed_out = timeout_rate_limited_packet sample_packet after in
    let failed = acknowledge_rate_limited_packet sample_packet (bytes "no") after in
    (timed_out.0 ≡ ok tt)
    × (failed.0 ≡ ok tt)
    × SameStores one_limit timed_out.1
    × SameStores one_limit failed.1
send_rate_limited_packet-undone_example =
    send_rate_limited_packet-undone sample_packet (bytes "no") (bytes "no") one_limit
      one_limit-IsSound.keyed sample_packet-fresh sample_packet-sent refl
