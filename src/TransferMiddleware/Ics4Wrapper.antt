-- ===== src/TransferMiddleware/Ics4Wrapper.antt =====
-- The packets that the bridge sends (x/transfermiddleware/keeper/ics4wrapper.go).
use composable_centauri.Base.{ℕ, true, false, not, ◌||◌, none, some}
use composable_centauri.Base.Bytes.{Bytes, eq_bytes}
use composable_centauri.Base.Exec.{ok, err, raise, raise_if, lift, ◌>>=◌, ◌>>◌}
use composable_centauri.Kv.{Kv}
use composable_centauri.Sdk.{Sdk, FungibleTokenPacketData}
use composable_centauri.Fees.Config.{Coin}
use composable_centauri.Fees.Transfer.{new_coins}
use composable_centauri.TransferMiddleware.Registry.{Registry, ParachainIbcTokenInfo}
use composable_centauri.TransferMiddleware.Keeper.{get_parachain_ibc_token_info_by_native_denom}
use composable_centauri.TransferMiddleware.Host.{
  Host, Height, MsgTransfer, invalid_address, bad_packet_data, bad_msg, panicked, new_coin,
}
use composable_centauri.TransferMiddleware.Relay.{Call}

-- The arguments of SendPacket, without the capability, which the channel below checks.
pub record Outgoing : Type 0 where
  pub source_port : Bytes
  pub source_channel : Bytes
  pub timeout_height : Height
  pub timeout_timestamp : ℕ
  pub payload : Bytes

module _ ⦃host : Host⦄ where
  -- BurnCoins, whose error is dropped; a panic is not.
  abbrev pub ignoring_error : Call (Unit {0}) → Call (Unit {0})
  ignoring_error call w =
      let (r, w') = call w in
      elim r [ ok a ↦ (ok a, w') | err panicked ↦ (err panicked, w') | err e ↦ (ok tt, w') ]

  -- The native token goes from the escrow account to the transfer module and is burnt; the escrowed
  -- IBC token is released to the sender.
  unfoldable pub burn_and_release : Bytes → Bytes → Coin → Coin → Call (Unit {0})
  burn_and_release sender escrow_address native_token ibc_token = do
    host.send_coins_from_account_to_module escrow_address host.transfer_module
        (new_coins native_token)
    ignoring_error (host.burn_coins host.transfer_module (new_coins native_token))
    host.send_coins escrow_address sender (new_coins ibc_token)

  -- executeTransferMsg
  unfoldable pub execute_transfer_msg : MsgTransfer → Call ℕ
  execute_transfer_msg msg = do raise_if (not (host.validate_basic msg)) bad_msg; host.transfer msg

  -- The message that handleOverrideSendPacketTransferLogic sends on.
  unfoldable pub override_msg : Outgoing → FungibleTokenPacketData → Coin → MsgTransfer
  override_msg out packet_data ibc_token = record {
    source_port = host.port_id;
    source_channel = out.source_channel;
    token = ibc_token;
    sender = packet_data.sender;
    receiver = packet_data.receiver;
    timeout_height = out.timeout_height;
    timeout_timestamp = out.timeout_timestamp;
    memo = packet_data.memo;
  }

  -- ICS4Wrapper.SendPacket
  unfoldable pub pass_on : Outgoing → Call ℕ
  pass_on out =
      host.send_packet out.source_port out.source_channel out.timeout_height out.timeout_timestamp
        out.payload

  module _ ⦃sdk : Sdk⦄ ⦃kv : Kv⦄ where
    -- handleOverrideSendPacketTransferLogic
    unfoldable pub handle_override_send_packet_transfer_logic : Registry → Outgoing → Call ℕ
    unfolding burn_and_release execute_transfer_msg override_msg
    handle_override_send_packet_transfer_logic r out =
        elim (sdk.unmarshal_packet_data out.payload) [
          | none ↦ raise bad_packet_data
          | some packet_data ↦ elim (sdk.acc_address_from_bech32 packet_data.sender) [
            | none ↦ raise invalid_address
            | some sender ↦ elim (sdk.new_int_from_string packet_data.amount) [
              | none ↦ raise panicked
              | some amount ↦ do
                let info : ParachainIbcTokenInfo =
                    get_parachain_ibc_token_info_by_native_denom packet_data.denom r
                native_token ← lift (new_coin packet_data.denom amount)
                ibc_token ← lift (new_coin info.ibc_denom amount)
                burn_and_release sender (host.get_escrow_address out.source_port out.source_channel)
                    native_token ibc_token
                execute_transfer_msg (override_msg out packet_data ibc_token)
            ]
          ]
        ]

    -- Keeper.SendPacket
    unfoldable pub send_packet : Registry → Outgoing → Call ℕ
    unfolding handle_override_send_packet_transfer_logic pass_on
    send_packet r out = elim (sdk.unmarshal_packet_data out.payload) [
      | none ↦ raise bad_packet_data
      | some packet_data ↦
          let info : ParachainIbcTokenInfo =
            get_parachain_ibc_token_info_by_native_denom packet_data.denom r in
          elim (not (eq_bytes info.channel_id out.source_channel)
            || not (eq_bytes info.native_denom packet_data.denom)) [
              | true ↦ pass_on out
              | false ↦ handle_override_send_packet_transfer_logic r out
            ]
    ]
