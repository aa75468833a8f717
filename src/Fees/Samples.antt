-- ===== src/Fees/Samples.antt =====
-- A transfer of 1000 on a channel that charges 10 and a hundredth of the rest.
use composable_centauri.Base.{ℕ, suc, ◌≡◌, refl, ◌≢◌, ◌⊎◌, true, false, none, some, [], ◌∷◌, arith}
use composable_centauri.Base.Int.{ℤ, pos, ◌≤ℤ◌, ◌<ℤ◌}
use composable_centauri.Base.Bytes.{bytes, eq_bytes}
use composable_centauri.Base.Exec.{ok, err}
use composable_centauri.Kv.Assoc.{assoc_kv}
use composable_centauri.Sdk.{Sdk}
use composable_centauri.Fees.Config.{
  Coin, CoinItem, ChannelFee, State, find_channel_params, find_coin_by_denom, get_sequence_fee,
  division_by_zero,
}
use composable_centauri.Fees.Transfer.{
  Chain, MsgTransfer, min_charge, msg_server_split, keeper_split, min_fee_of, charge_and_send,
  transfer, check_timeout, get_priority,
}
use composable_centauri.Fees.Charge.{
  Divides, keeper_split-agrees, transfer-Divides, charge_and_send-recorded,
}

instance abbrev sample_sdk : Sdk
sample_sdk = record {
  acc_address_from_bech32 = λ b. some b;
  is_channel_identifier = λ b. true;
  unmarshal_packet_data = λ payload. none;
  unmarshal_acknowledgement = λ payload. none;
  new_int_from_string = λ b. none;
  parse_denom_trace = λ d. record { path = []; base_denom = d };
  ibc_denom = λ t. t.base_denom;
  receiver_chain_is_source = λ p c d. false;
  get_denom_prefix = λ p c. [];
}

-- The world counts the packets; the bank pays whatever it is told to.
instance abbrev sample_chain : Chain
sample_chain = record {
  World = ℕ;
  block_time = pos 100;
  send_coins = λ from to coins w. (ok tt, w);
  transfer = λ msg w. (ok w, suc w);
  unmarshal_strings = λ memo. none;
}

abbrev sample_item : CoinItem
sample_item = record {
  min_fee = record { denom = bytes "upica"; amount = pos 10 };
  percentage = pos 100;
  tx_priority_fee = [];
}

abbrev sample_fee : ChannelFee
sample_fee = record {
  channel = bytes "channel-1";
  allowed_tokens = sample_item ∷ [];
  fee_address = bytes "treasury";
  min_timeout_timestamp = pos 0;
}

abbrev sample_state : State ℕ
sample_state = record { channel_fees = sample_fee ∷ []; sequence_fees = assoc_kv.empty; world = 7 }

abbrev sample_transfer : MsgTransfer
sample_transfer = record {
  source_channel = bytes "channel-1";
  token = record { denom = bytes "upica"; amount = pos 1000 };
  sender = bytes "alice";
  memo = [];
  timeout_timestamp = 500;
}

transfer-Divides_example :
    (charge : ℤ) × (left : ℤ) × (transfer msg_server_split sample_transfer sample_state
      ≡ charge_and_send sample_fee sample_transfer charge left sample_state)
    × Divides (pos 1000) (min_charge (min_fee_of sample_item []) (pos 1000)) charge left
unfolding find_channel_params find_coin_by_denom eq_bytes check_timeout min_fee_of get_priority
transfer-Divides_example =
    transfer-Divides sample_transfer sample_fee sample_item sample_state refl refl refl
      (ground arith) (ground arith) (ground arith)

charge_and_send-recorded_example :
    let coin : Coin = record { denom = bytes "upica"; amount = pos 19 } in
    let (result, t) = charge_and_send sample_fee sample_transfer (pos 19) (pos 981) sample_state in
    (result ≡ ok 7) × (get_sequence_fee 7 t ≡ some coin) × (t.world ≡ 8)
charge_and_send-recorded_example =
    charge_and_send-recorded sample_fee sample_transfer (pos 19) (pos 981) (bytes "alice")
      (bytes "treasury") 7 7 8 sample_state refl refl (ground arith) (ground arith) refl refl

keeper_split-agrees_example :
    ((keeper_split (pos 0) (pos 10) (pos 990) ≡ msg_server_split (pos 0) (pos 10) (pos 990))
      × ((pos 990 ≤ℤ pos 0) ⊎ (pos 0 ≢ pos 0)))
    ⊎ ((keeper_split (pos 0) (pos 10) (pos 990) ≡ err division_by_zero)
        × (msg_server_split (pos 0) (pos 10) (pos 990) ≡ ok (pos 10, pos 990))
        × (pos 0 ≡ pos 0)
        × (pos 0 <ℤ pos 990))
keeper_split-agrees_example = keeper_split-agrees (pos 0) (pos 10) (pos 990)
