-- ===== src/TransferMiddleware/Relay.antt =====
-- The keeper's part of the packet callbacks (x/transfermiddleware/keeper/relay.go and the refunds of
-- keeper/ics4wrapper.go). They read the registry and change the rest of the chain.
use composable_centauri.Base.{true, false, ◌&&◌, none, some, ◌++◌}
use composable_centauri.Base.Int.{ℤ}
use composable_centauri.Base.Bytes.{Bytes, bytes, eq_bytes}
use composable_centauri.Base.Exec.{ok, err, Exec, pure, raise, modify, lift, ◌>>=◌, ◌>>◌}
use composable_centauri.Kv.{Kv}
use composable_centauri.Sdk.{
  Sdk, Packet, FungibleTokenPacketData, DenomTrace, ack_result, ack_error, ack_nothing,
}
use composable_centauri.Fees.Config.{Coin}
use composable_centauri.Fees.Transfer.{new_coins}
use composable_centauri.TransferMiddleware.Registry.{Registry, ParachainIbcTokenInfo}
use composable_centauri.TransferMiddleware.Keeper.{
  has_parachain_ibc_token_info_by_native_denom, get_parachain_ibc_token_info_by_native_denom,
  get_parachain_ibc_token_info_by_asset_id, get_native_denom_by_ibc_denom_secondary_index,
}
use composable_centauri.TransferMiddleware.Host.{
  Host, Failure, invalid_address, invalid_amount, bad_packet_data, bad_acknowledgement, panicked,
  new_coin,
}

-- types.ModuleName
abbrev pub module_name : Bytes
module_name = bytes "transfermiddleware"

module _ ⦃host : Host⦄ where
  abbrev pub Call : Type 0 → Type 0
  Call A = Exec Failure host.World A

  -- `if err := call; err != nil { panic(..) }`
  abbrev pub or_panic : {A : Type 0} → Call A → Call A
  or_panic call w =
      let (r, w') = call w in elim r [ ok a ↦ (ok a, w') | err e ↦ (err panicked, w') ]

  -- The voucher goes from its holder to the escrow account; the native token is minted for the
  -- holder. This is how OnRecvPacket does it: an error of the bank is returned.
  unfoldable pub lock_and_mint : Bytes → Bytes → Coin → Bytes → ℤ → Call (Unit {0})
  lock_and_mint receiver escrow_address voucher denom amount = do
    host.send_coins receiver escrow_address (new_coins voucher)
    native_coin ← lift (new_coin denom amount)
    host.mint_coins module_name (new_coins native_coin)
    host.send_coins_from_module_to_account module_name receiver (new_coins native_coin)

  -- The same in refundToken, where an error of the two payments is a panic.
  unfoldable pub lock_and_refund : Bytes → Bytes → Coin → Bytes → ℤ → Call (Unit {0})
  lock_and_refund sender escrow_address token denom amount = do
    native_token ← lift (new_coin denom amount)
    or_panic (host.send_coins sender escrow_address (new_coins token))
    host.mint_coins module_name (new_coins native_token)
    or_panic (host.send_coins_from_module_to_account module_name sender (new_coins native_token))

  -- HasDenomTrace, SetDenomTrace
  unfoldable pub keep_denom_trace : DenomTrace → host.World → host.World
  keep_denom_trace trace w = elim (host.has_denom_trace (host.trace_hash trace) w) [
    | true ↦ w
    | false ↦ host.set_denom_trace trace w
  ]

  module _ ⦃sdk : Sdk⦄ ⦃kv : Kv⦄ where
    -- The trace of the voucher that ibc-go makes of a received denom.
    unfoldable pub received_trace : Packet → FungibleTokenPacketData → DenomTrace
    received_trace packet packet_data =
        sdk.parse_denom_trace
          (sdk.get_denom_prefix packet.dest_port packet.dest_channel ++ packet_data.denom)

    -- Keeper.OnRecvPacket
    unfoldable pub on_recv_packet : Registry → Packet → FungibleTokenPacketData → Call (Unit {0})
    unfolding received_trace keep_denom_trace lock_and_mint
    on_recv_packet r packet packet_data = elim (sdk.acc_address_from_bech32 packet_data.receiver) [
      | none ↦ raise invalid_address
      | some receiver ↦ elim (sdk.new_int_from_string packet_data.amount) [
        | none ↦ raise invalid_amount
        | some amount ↦
            elim (sdk.receiver_chain_is_source packet.source_port packet.source_channel
              packet_data.denom) [
                | true ↦ pure tt
                | false ↦ do
                  let voucher_denom : Bytes = sdk.ibc_denom (received_trace packet packet_data)
                  let info : ParachainIbcTokenInfo =
                      get_parachain_ibc_token_info_by_asset_id packet_data.denom r
                  modify (keep_denom_trace (received_trace packet packet_data))
                  voucher ← lift (new_coin voucher_denom amount)
                  elim (eq_bytes (get_native_denom_by_ibc_denom_secondary_index voucher_denom r)
                        info.native_denom
                      && eq_bytes packet.dest_channel info.channel_id) [
                        | false ↦ pure tt
                        | true ↦
                            lock_and_mint receiver
                              (host.get_escrow_address packet.dest_port packet.dest_channel) voucher
                              info.native_denom amount
                      ]
              ]
      ]
    ]

    -- refundToken
    unfoldable pub refund_token : Registry → Packet → FungibleTokenPacketData → Call (Unit {0})
    unfolding lock_and_refund
    refund_token r packet packet_data = elim (sdk.new_int_from_string packet_data.amount) [
      | none ↦ raise invalid_amount
      | some amount ↦ do
        let ibc_denom : Bytes = sdk.ibc_denom (sdk.parse_denom_trace packet_data.denom)
        token ← lift (new_coin ibc_denom amount)
        elim (sdk.acc_address_from_bech32 packet_data.sender) [
          | none ↦ raise invalid_address
          | some sender ↦
              elim (host.sender_chain_is_source packet.source_port packet.source_channel
                packet_data.denom) [
                  | true ↦ pure tt
                  | false ↦
                      let native_denom : Bytes =
                        get_native_denom_by_ibc_denom_secondary_index ibc_denom r in
                      let info : ParachainIbcTokenInfo =
                        get_parachain_ibc_token_info_by_native_denom native_denom r in
                      elim (has_parachain_ibc_token_info_by_native_denom native_denom r
                        && eq_bytes packet.source_channel info.channel_id) [
                          | false ↦ pure tt
                          | true ↦
                              lock_and_refund sender
                                (host.get_escrow_address host.port_id info.channel_id) token
                                info.native_denom amount
                        ]
                ]
        ]
    ]

    -- Keeper.OnTimeoutPacket
    unfoldable pub on_timeout_packet : Registry → Packet → FungibleTokenPacketData → Call (Unit {0})
    unfolding refund_token
    on_timeout_packet r packet packet_data = refund_token r packet packet_data

    -- Keeper.OnAcknowledgementPacket
    unfoldable pub on_acknowledgement_packet : Registry → Packet → Bytes → Call (Unit {0})
    unfolding refund_token
    on_acknowledgement_packet r packet acknowledgement =
        elim (sdk.unmarshal_acknowledgement acknowledgement) [
          | none ↦ raise bad_acknowledgement
          | some ack ↦ elim (sdk.unmarshal_packet_data packet.payload) [
            | none ↦ raise bad_packet_data
            | some packet_data ↦ elim ack [
              | ack_error message ↦ refund_token r packet packet_data
              | ack_result result ↦ pure tt
              | ack_nothing ↦ pure tt
            ]
          ]
        ]
