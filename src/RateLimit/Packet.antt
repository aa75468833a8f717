-- ===== src/RateLimit/Packet.antt =====
-- The packet callbacks of the keeper (x/ratelimit/keeper/packet.go).
pub mod Undo
pub mod Forgotten
use composable_centauri.Base.{
  ℕ, Bool, true, false, none, some, [], ◌++◌, drop, length, if◌then◌else◌,
}
use composable_centauri.Base.Bytes.{Bytes, eq_bytes}
use composable_centauri.Base.Exec.{Result, ok, err, lift, pure, raise, modify, ◌>>=◌, ◌>>◌}
use composable_centauri.Kv.{Kv}
use composable_centauri.Sdk.{
  Sdk, Packet, FungibleTokenPacketData, Acknowledgement, ack_result, ack_error, ack_nothing,
}
use composable_centauri.RateLimit.State.{
  PacketDirection, packet_send, packet_recv, other, Error, packet_data_unreadable, invalid_request,
  unknown_request, invalid_acknowledgement, State, Action,
}
use composable_centauri.RateLimit.Keeper.{
  RateLimitedPacketInfo, check_rate_limit_and_update_flow, set_pending_send_packet,
  remove_pending_send_packet, undo_send_packet,
}

-- Whether a string is "".
abbrev is_blank : Bytes → Bool
is_blank b = eq_bytes b []

module _ ⦃kv : Kv⦄ where
  -- The last statement of SendRateLimitedPacket.
  unfoldable pub record_send : RateLimitedPacketInfo → ℕ → Bool → State → State
  record_send p sequence true s = set_pending_send_packet p.channel_id sequence s
  record_send p sequence false s = s

module _ ⦃sdk : Sdk⦄ where
  -- A denom by its trace: native ones as they are, the others hashed.
  unfoldable pub local_denom : Bytes → Bytes
  local_denom denom =
      let trace = sdk.parse_denom_trace denom in
      if is_blank trace.path then denom else sdk.ibc_denom trace

  -- ParseDenomFromSendPacket
  unfoldable pub parse_denom_from_send_packet : FungibleTokenPacketData → Bytes
  unfolding local_denom
  parse_denom_from_send_packet content = local_denom content.denom

  -- ParseDenomFromRecvPacket
  unfoldable pub parse_denom_from_recv_packet : Packet → FungibleTokenPacketData → Bytes
  unfolding local_denom
  parse_denom_from_recv_packet packet content =
      if sdk.receiver_chain_is_source packet.source_port packet.source_channel content.denom
      then local_denom (
          drop (length (sdk.get_denom_prefix packet.source_port packet.source_channel))
            content.denom)
      else sdk.ibc_denom (
          sdk.parse_denom_trace
            (sdk.get_denom_prefix packet.dest_port packet.dest_channel ++ content.denom))

  -- The channel and the denom that ParsePacketInfo takes: those of the chain's own end.
  unfoldable pub own_channel : Packet → PacketDirection → Bytes
  own_channel packet packet_send = packet.source_channel
  own_channel packet packet_recv = packet.dest_channel
  own_channel packet other = packet.dest_channel

  unfoldable pub own_denom : Packet → FungibleTokenPacketData → PacketDirection → Bytes
  unfolding parse_denom_from_send_packet parse_denom_from_recv_packet
  own_denom packet content packet_send = parse_denom_from_send_packet content
  own_denom packet content packet_recv = parse_denom_from_recv_packet packet content
  own_denom packet content other = parse_denom_from_recv_packet packet content

  -- ParsePacketInfo
  unfoldable pub parse_packet_info : Packet → PacketDirection → Result Error RateLimitedPacketInfo
  parse_packet_info packet direction = elim (sdk.unmarshal_packet_data packet.payload) [
    | none ↦ err packet_data_unreadable
    | some content ↦ elim (sdk.new_int_from_string content.amount) [
      | none ↦ err invalid_request
      | some amount ↦ ok (record {
        channel_id = own_channel packet direction;
        denom = own_denom packet content direction;
        amount = amount;
        sender = content.sender;
        receiver = content.receiver;
      })
    ]
  ]

  module _ ⦃kv : Kv⦄ where
    -- SendRateLimitedPacket
    unfoldable pub send_rate_limited_packet : Packet → Action (Unit {0})
    send_rate_limited_packet packet = do
      p ← lift (parse_packet_info packet packet_send)
      updated_flow ← check_rate_limit_and_update_flow packet_send p
      modify (record_send p packet.sequence updated_flow)

    -- ReceiveRateLimitedPacket
    unfoldable pub receive_rate_limited_packet : Packet → Action (Unit {0})
    receive_rate_limited_packet packet = do
      p ← lift (parse_packet_info packet packet_recv)
      check_rate_limit_and_update_flow packet_recv p
      pure tt

    -- The switch of AcknowledgeRateLimitedPacket over the response.
    unfoldable pub settle_acknowledgement :
        RateLimitedPacketInfo → ℕ → Acknowledgement → Action (Unit {0})
    settle_acknowledgement p sequence (ack_result []) = raise invalid_acknowledgement
    settle_acknowledgement p sequence (ack_result result) =
        modify (remove_pending_send_packet p.channel_id sequence)
    settle_acknowledgement p sequence (ack_error e) =
        undo_send_packet p.channel_id sequence p.denom p.amount
    settle_acknowledgement p sequence ack_nothing =
        undo_send_packet p.channel_id sequence p.denom p.amount

    -- AcknowledgeRateLimitedPacket
    unfoldable pub acknowledge_rate_limited_packet : Packet → Bytes → Action (Unit {0})
    acknowledge_rate_limited_packet packet ack = do
      p ← lift (parse_packet_info packet packet_send)
      elim (sdk.unmarshal_acknowledgement ack) [
        | none ↦ raise unknown_request
        | some response ↦ settle_acknowledgement p packet.sequence response
      ]

    -- TimeoutRateLimitedPacket
    unfoldable pub timeout_rate_limited_packet : Packet → Action (Unit {0})
    timeout_rate_limited_packet packet = do
      p ← lift (parse_packet_info packet packet_send)
      undo_send_packet p.channel_id packet.sequence p.denom p.amount

    -- SendPacket: the wrapper above gives the sequence number first. The caller has the packet's
    -- fields without one, and no destination.
    unfoldable pub send_packet :
        (Bytes → Bytes → Bytes → Result Error ℕ) → Bytes → Bytes → Bytes → Action ℕ
    send_packet ics4_send_packet source_port source_channel payload = do
      sequence ← lift (ics4_send_packet source_port source_channel payload)
      send_rate_limited_packet (record {
        sequence = sequence;
        source_port = source_port;
        source_channel = source_channel;
        dest_port = [];
        dest_channel = [];
        payload = payload;
      })
      pure sequence
