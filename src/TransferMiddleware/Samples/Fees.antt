-- ===== src/TransferMiddleware/Samples/Fees.antt =====
-- A fee that is kept for a packet, and a registry that is exported.
use composable_centauri.Base.{◌≡◌, refl, ◌⊎◌, true, none, [], ◌∷◌}
use composable_centauri.Base.Int.{pos}
use composable_centauri.Base.Bytes.{Bytes, bytes, eq_bytes, has_prefix}
use composable_centauri.Base.Exec.{ok}
use composable_centauri.Kv.Assoc.{assoc_kv}
use composable_centauri.Fees.Config.{
  Coin, State, get_sequence_fee, get_channel_fee_address, get_sequence_key, find_channel_params,
}
use composable_centauri.Base.Decimal.{print_uint64, digits}
use composable_centauri.TransferMiddleware.Registry.{Registry}
use composable_centauri.Kv.{lookup}
use composable_centauri.Kv.Assoc
use composable_centauri.Kv.Assoc.{no_entries}
use composable_centauri.TransferMiddleware.Keeper.{
  add_parachain_ibc_token_info, add_parachain_ibc_info,
}
use composable_centauri.TransferMiddleware.Host.{new_coin}
use composable_centauri.TransferMiddleware.Samples.{no_tokens, one_token, one_token-IsConsistent}
use composable_centauri.TransferMiddleware.Samples.Bank.{Books, sample_host}
use composable_centauri.TransferMiddleware.Relay.{
  on_recv_packet, refund_token, received_trace, keep_denom_trace, lock_and_mint,
}
use composable_centauri.TransferMiddleware.Relay.{lock_and_refund}
use composable_centauri.TransferMiddleware.Samples.Relay.{
  sample_sdk, books, refused_packet, token_data,
}
use composable_centauri.TransferMiddleware.Relay as Relay
use composable_centauri.TransferMiddleware.Middleware.{
  Application, refund_fee, on_acknowledgement_packet, refund_channel_cosmos_fee,
}
use composable_centauri.TransferMiddleware.Middleware.Refunds.{
  WasRefunded, IsUnpaid, refund_fee-once, on_acknowledgement_packet-forgets,
}
use composable_centauri.TransferMiddleware.Genesis.{init_genesis, export_genesis}
use composable_centauri.TransferMiddleware.Genesis.RoundTrip.{init_genesis-export_genesis}

-- Packet 9 has paid 2 on channel-1, to the treasury.
abbrev charged : State Books
charged = record {
  channel_fees =
      record {
        channel = bytes "channel-1";
        allowed_tokens = [];
        fee_address = bytes "treasury";
        min_timeout_timestamp = pos 0;
      }
      ∷ [];
  sequence_fees =
      assoc_kv.set (get_sequence_key 9) (record { denom = bytes "ppica"; amount = pos 2 })
        assoc_kv.empty;
  world = books;
}

abbrev refunded : State Books
refunded = (refund_fee refused_packet token_data charged).1

refund_fee-once_example :
    let fee : Coin = record { denom = bytes "ppica"; amount = pos 2 } in
    WasRefunded refused_packet token_data fee charged refunded
    ⊎ IsUnpaid refused_packet token_data fee charged refunded
unfolding refund_fee get_sequence_fee get_sequence_key Assoc.get Assoc.set no_entries lookup
    eq_bytes get_channel_fee_address refund_channel_cosmos_fee find_channel_params print_uint64
    digits
refund_fee-once_example =
    refund_fee-once refused_packet token_data (record { denom = bytes "ppica"; amount = pos 2 })
      charged refunded refl refl

abbrev idle_app : Application
idle_app = record {
  receives = λ packet w. ((bytes "done", true), w);
  acknowledges = λ packet ack w. (ok tt, w);
  times_out = λ packet w. (ok tt, w);
}

abbrev acknowledged : State Books
acknowledged =
    (on_acknowledgement_packet one_token idle_app refused_packet (bytes "refused") charged).1

on_acknowledgement_packet-forgets_example :
    (get_sequence_fee 9 acknowledged ≡ none)
    × ((u : Books) × (idle_app.acknowledges refused_packet (bytes "refused") books ≡ (ok tt, u))
        × (Relay.on_acknowledgement_packet one_token refused_packet (bytes "refused") u
            ≡ (ok tt, acknowledged.world)))
unfolding on_acknowledgement_packet Relay.on_acknowledgement_packet refund_token lock_and_refund
    new_coin eq_bytes Assoc.get Assoc.set no_entries lookup add_parachain_ibc_token_info
    add_parachain_ibc_info has_prefix
on_acknowledgement_packet-forgets_example =
    on_acknowledgement_packet-forgets one_token idle_app refused_packet (bytes "refused") charged
      acknowledged refl

init_genesis-export_genesis_example :
    let t : Registry = init_genesis (export_genesis one_token) no_tokens in
    ((n : Bytes)
      → assoc_kv.get n t.info_by_native_denom ≡ assoc_kv.get n one_token.info_by_native_denom)
    × ((a : Bytes) → assoc_kv.get a t.info_by_asset_id ≡ assoc_kv.get a one_token.info_by_asset_id)
    × ((d : Bytes)
        → assoc_kv.get d t.native_denom_by_ibc_denom
          ≡ assoc_kv.get d one_token.native_denom_by_ibc_denom)
    × (t.duration ≡ one_token.duration)
init_genesis-export_genesis_example =
    init_genesis-export_genesis one_token no_tokens one_token-IsConsistent (record {
      no_natives = λ n. assoc_kv.get-empty n;
      no_assets = λ a. assoc_kv.get-empty a;
      no_ibc_denoms = λ d. assoc_kv.get-empty d;
    })
