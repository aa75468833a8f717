-- ===== src/RateLimit/Keeper.antt =====
-- The keeper's operations on rate limits, pending packets and the whitelist
-- (x/ratelimit/keeper/rate_limit.go).
pub mod Check
pub mod Pending
use composable_centauri.Base.{
  ℕ, Bool, true, false, Option, none, some, List, [], ◌∷◌, ◌++◌, map, if◌then◌else◌,
}
use composable_centauri.Base.Int.{ℤ, ◌-ℤ◌, is_zero}
use composable_centauri.Base.Bytes.{Bytes, eq_bytes, has_prefix}
use composable_centauri.Base.Exec.{Result, ok, err}
use composable_centauri.Kv.{Kv, has}
use composable_centauri.TransferMiddleware.Keeper.{
  has_parachain_ibc_token_info_by_native_denom, get_parachain_ibc_token_info_by_native_denom,
}
use composable_centauri.RateLimit.State.{
  PacketDirection, packet_send, packet_recv, other, Flow, RateLimit, WhitelistedAddressPair, Error,
  rate_limit_not_found, rate_limit_already_exists, zero_channel_value, invalid_request,
  transfer_denied, State, Context, Action,
}
use composable_centauri.RateLimit.Quota.{new_flow, add_inflow, add_outflow}
use composable_centauri.RateLimit.Keys.{
  get_rate_limit_item_key, get_pending_send_packet_key, get_address_whitelist_key,
  pending_packet_of_key,
}

-- RateLimitedPacketInfo of x/ratelimit/keeper/packet.go
pub record RateLimitedPacketInfo : Type 0 where
  pub channel_id : Bytes
  pub denom : Bytes
  pub amount : ℤ
  pub sender : Bytes
  pub receiver : Bytes

-- MsgAddRateLimit and MsgUpdateRateLimit, which have the same fields.
pub record MsgRateLimit : Type 0 where
  pub authority : Bytes
  pub denom : Bytes
  pub channel_id : Bytes
  pub max_percent_send : ℤ
  pub max_percent_recv : ℤ
  pub min_rate_limit_amount : ℤ
  pub duration_hours : ℕ

-- The result of AddInflow or AddOutflow put back behind the limit's pointer.
abbrev with_flow : RateLimit → Result Error Flow → Result Error RateLimit
with_flow rate_limit (ok flow) = ok (record rate_limit { flow = flow })
with_flow rate_limit (err e) = err e

-- UpdateFlow: the limit with its flow changed in place.
unfoldable pub update_flow : RateLimit → PacketDirection → ℤ → Result Error RateLimit
update_flow r packet_send amount =
    with_flow r (add_outflow r.flow amount r.quota r.min_rate_limit_amount)
update_flow r packet_recv amount =
    with_flow r (add_inflow r.flow amount r.quota r.min_rate_limit_amount)
update_flow r other amount = err invalid_request

module _ ⦃kv : Kv⦄ where
  -- SetRateLimit
  unfoldable pub set_rate_limit : RateLimit → State → State
  set_rate_limit r s = record s {
    rate_limits = kv.set (get_rate_limit_item_key r.path.denom r.path.channel_id) r s.rate_limits;
  }

  -- GetRateLimit
  unfoldable pub get_rate_limit : Bytes → Bytes → State → Option RateLimit
  get_rate_limit denom channel_id s =
      kv.get (get_rate_limit_item_key denom channel_id) s.rate_limits

  -- GetAllRateLimits
  unfoldable pub get_all_rate_limits : State → List RateLimit
  get_all_rate_limits s = map (λ e. e.1) (kv.entries s.rate_limits)

  -- The opening lines of the operations of governance: a denom that the parachain bridge carries on
  -- this channel stands for its IBC denom.
  unfoldable pub limited_denom : Bytes → Bytes → State → Bytes
  limited_denom denom channel_id s =
      if has_parachain_ibc_token_info_by_native_denom denom s.registry
      then (let info = get_parachain_ibc_token_info_by_native_denom denom s.registry in
          if eq_bytes channel_id info.channel_id then info.ibc_denom else denom)
      else denom

  -- SetPendingSendPacket, RemovePendingSendPacket and CheckPacketSentDuringCurrentQuota
  unfoldable pub set_pending_send_packet : Bytes → ℕ → State → State
  set_pending_send_packet channel_id sequence s = record s {
    pending_send_packets =
        kv.set (get_pending_send_packet_key channel_id sequence) 1 s.pending_send_packets;
  }

  unfoldable pub remove_pending_send_packet : Bytes → ℕ → State → State
  remove_pending_send_packet channel_id sequence s = record s {
    pending_send_packets =
        kv.delete (get_pending_send_packet_key channel_id sequence) s.pending_send_packets;
  }

  unfoldable pub check_packet_sent_during_current_quota : Bytes → ℕ → State → Bool
  check_packet_sent_during_current_quota channel_id sequence s =
      has (get_pending_send_packet_key channel_id sequence) s.pending_send_packets

  -- GetAllPendingSendPackets, before the pairs are printed.
  unfoldable pub get_all_pending_send_packets : State → List (Bytes × ℕ)
  get_all_pending_send_packets s =
      map (λ e. pending_packet_of_key e.0) (kv.entries s.pending_send_packets)

  -- The loop of RemoveAllChannelPendingSendPackets over the keys that the iterator meets: those
  -- that begin with the channel's bytes.
  unfoldable pub delete_with_prefix : Bytes → List (Bytes × ℕ) → kv.Store ℕ → kv.Store ℕ
  unfolding has_prefix
  delete_with_prefix channel_id [] store = store
  delete_with_prefix channel_id ((key, flag) ∷ rest) store =
      delete_with_prefix channel_id rest
        (if has_prefix channel_id key then kv.delete key store else store)

  -- RemoveAllChannelPendingSendPackets
  unfoldable pub remove_all_channel_pending_send_packets : Bytes → State → State
  unfolding delete_with_prefix
  remove_all_channel_pending_send_packets channel_id s = record s {
    pending_send_packets =
        delete_with_prefix channel_id (kv.entries s.pending_send_packets) s.pending_send_packets;
  }

  -- SetWhitelistedAddressPair, RemoveWhitelistedAddressPair, IsAddressPairWhitelisted and
  -- GetAllWhitelistedAddressPairs
  unfoldable pub set_whitelisted_address_pair : WhitelistedAddressPair → State → State
  set_whitelisted_address_pair pair s = record s {
    address_whitelist =
        kv.set (get_address_whitelist_key pair.sender pair.receiver) pair s.address_whitelist;
  }

  unfoldable pub remove_whitelisted_address_pair : Bytes → Bytes → State → State
  remove_whitelisted_address_pair sender receiver s = record s {
    address_whitelist = kv.delete (get_address_whitelist_key sender receiver) s.address_whitelist;
  }

  unfoldable pub is_address_pair_whitelisted : Bytes → Bytes → State → Bool
  is_address_pair_whitelisted sender receiver s =
      has (get_address_whitelist_key sender receiver) s.address_whitelist

  unfoldable pub get_all_whitelisted_address_pairs : State → List WhitelistedAddressPair
  get_all_whitelisted_address_pairs s = map (λ e. e.1) (kv.entries s.address_whitelist)

  -- EmitTransferDeniedEvent
  unfoldable pub emit_transfer_denied_event :
      Bytes → Bytes → PacketDirection → ℤ → Error → State → State
  emit_transfer_denied_event denom channel_id direction amount e s = record s {
    events = s.events ++ transfer_denied denom channel_id direction amount e ∷ [];
  }

  -- CheckRateLimitAndUpdateFlow: whether the flow was updated.
  unfoldable pub check_rate_limit_and_update_flow :
      PacketDirection → RateLimitedPacketInfo → Action Bool
  check_rate_limit_and_update_flow direction p s = elim (get_rate_limit p.denom p.channel_id s) [
    | none ↦ (ok false, s)
    | some r ↦
        if is_address_pair_whitelisted p.sender p.receiver s
        then (ok false, s)
        else elim (update_flow r direction p.amount) [
          | err e ↦ (err e, emit_transfer_denied_event p.denom p.channel_id direction p.amount e s)
          | ok r' ↦ (ok true, set_rate_limit r' s)
        ]
  ]

  -- UndoSendPacket
  unfoldable pub undo_send_packet : Bytes → ℕ → Bytes → ℤ → Action (Unit {0})
  undo_send_packet channel_id sequence denom amount s = elim (get_rate_limit denom channel_id s) [
    | none ↦ (ok tt, s)
    | some r ↦
        if check_packet_sent_during_current_quota channel_id sequence s
        then (
          ok tt,
          remove_pending_send_packet channel_id sequence (
              set_rate_limit
                (record r { flow = record r.flow { outflow = r.flow.outflow -ℤ amount } }) s),
        )
        else (ok tt, s)
  ]

  module _ ⦃ctx : Context⦄ where
    -- GetChannelValue
    unfoldable pub get_channel_value : Bytes → ℤ
    get_channel_value denom = ctx.get_supply denom

    -- ResetRateLimit
    unfoldable pub reset_rate_limit : Bytes → Bytes → Action (Unit {0})
    unfolding get_channel_value
    reset_rate_limit denom channel_id s =
        let denom' = limited_denom denom channel_id s in
        elim (get_rate_limit denom' channel_id s) [
          | none ↦ (err rate_limit_not_found, s)
          | some r ↦ (
            ok tt,
            remove_all_channel_pending_send_packets channel_id
                (set_rate_limit (record r { flow = new_flow (get_channel_value denom') }) s),
          )
        ]

    -- RemoveRateLimit
    unfoldable pub remove_rate_limit : Bytes → Bytes → Action (Unit {0})
    remove_rate_limit denom channel_id s =
        let denom' = limited_denom denom channel_id s in
        elim (get_rate_limit denom' channel_id s) [
          | none ↦ (err rate_limit_not_found, s)
          | some _ ↦ (
            ok tt,
            record s {
              rate_limits = kv.delete (get_rate_limit_item_key denom' channel_id) s.rate_limits;
            },
          )
        ]

    -- The limit that AddRateLimit and UpdateRateLimit store: flows at zero.
    unfoldable pub fresh_rate_limit : Bytes → MsgRateLimit → RateLimit
    unfolding get_channel_value
    fresh_rate_limit denom msg = record {
      path = record { denom = denom; channel_id = msg.channel_id };
      quota = record {
        max_percent_send = msg.max_percent_send;
        max_percent_recv = msg.max_percent_recv;
        duration_hours = msg.duration_hours;
      };
      flow = new_flow (get_channel_value denom);
      min_rate_limit_amount = msg.min_rate_limit_amount;
    }

    -- AddRateLimit
    unfoldable pub add_rate_limit : MsgRateLimit → Action (Unit {0})
    unfolding get_channel_value
    add_rate_limit msg s =
        let denom = limited_denom msg.denom msg.channel_id s in
        if is_zero (get_channel_value denom)
        then (err zero_channel_value, s)
        else elim (get_rate_limit denom msg.channel_id s) [
          | some _ ↦ (err rate_limit_already_exists, s)
          | none ↦ (ok tt, set_rate_limit (fresh_rate_limit denom msg) s)
        ]

    -- UpdateRateLimit
    unfoldable pub update_rate_limit : MsgRateLimit → Action (Unit {0})
    update_rate_limit msg s =
        let denom = limited_denom msg.denom msg.channel_id s in
        elim (get_rate_limit denom msg.channel_id s) [
          | none ↦ (err rate_limit_not_found, s)
          | some _ ↦ (ok tt, set_rate_limit (fresh_rate_limit denom msg) s)
        ]
