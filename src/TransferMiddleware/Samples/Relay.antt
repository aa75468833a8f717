-- ===== src/TransferMiddleware/Samples/Relay.antt =====
-- The relay at concrete packets, over a registry of one token.
use composable_centauri.Base.{◌≡◌, refl, ◌⊎◌, true, false, some, [], arith}
use composable_centauri.Base.Int.{ℤ, pos}
use composable_centauri.Base.Bytes.{Bytes, bytes, eq_bytes, eq_bytes_iff, has_prefix}
use composable_centauri.Base.Exec.{ok}
use composable_centauri.Kv.Assoc.{assoc_kv}
use composable_centauri.Sdk.{Sdk, Packet, FungibleTokenPacketData, ack_error}
use composable_centauri.Fees.Config.{Coin}
use composable_centauri.TransferMiddleware.Registry.{ParachainIbcTokenInfo}
use composable_centauri.Kv.{lookup}
use composable_centauri.Kv.Assoc
use composable_centauri.Kv.Assoc.{no_entries}
use composable_centauri.TransferMiddleware.Keeper.{
  add_parachain_ibc_token_info, add_parachain_ibc_info,
}
use composable_centauri.TransferMiddleware.Host.{new_coin}
use composable_centauri.TransferMiddleware.Samples.{one_token, one_token-IsConsistent}
use composable_centauri.TransferMiddleware.Samples.Bank.{
  Books, sample_host, sample_laws, sample_burns,
}
use composable_centauri.TransferMiddleware.Ledger.{Changes, no_change}
use composable_centauri.TransferMiddleware.Relay.{
  on_recv_packet, refund_token, received_trace, keep_denom_trace, lock_and_mint,
}
use composable_centauri.TransferMiddleware.Ics4Wrapper.{Outgoing, send_packet}
use composable_centauri.TransferMiddleware.Relay.{lock_and_refund}
use composable_centauri.TransferMiddleware.Ics4Wrapper.{
  handle_override_send_packet_transfer_logic, burn_and_release, execute_transfer_msg, override_msg,
  pass_on,
}
use composable_centauri.TransferMiddleware.Exchange.{exchange}
use composable_centauri.TransferMiddleware.Exchange.Refund.{refund_token-exchanges, IsListed}
use composable_centauri.TransferMiddleware.Exchange.Release.{send_packet-releases, IsNative}
use composable_centauri.TransferMiddleware.Exchange.Release.Burn.{IsReleased}
use composable_centauri.TransferMiddleware.Exchange.Peg.{peg, escrow_of}
use composable_centauri.TransferMiddleware.Exchange.Peg.Steps.{
  Reach-peg, here, next, received, released,
}
use composable_centauri.TransferMiddleware.Exchange.Receive.{on_recv_packet-exchanges, IsBridged}

instance abbrev pub sample_sdk : Sdk
sample_sdk = record {
  acc_address_from_bech32 = λ b. some b;
  is_channel_identifier = λ b. true;
  unmarshal_packet_data = λ payload. some (record {
    denom = payload;
    amount = bytes "5";
    sender = bytes "alice";
    receiver = bytes "bob";
    memo = [];
  });
  unmarshal_acknowledgement = λ payload. some (ack_error payload);
  new_int_from_string = λ b. some (pos 5);
  parse_denom_trace = λ d. record { path = []; base_denom = d };
  ibc_denom =
      λ t. elim (eq_bytes t.base_denom (bytes "1")) [ true ↦ bytes "ibc/A" | false ↦ t.base_denom ];
  receiver_chain_is_source = λ p c d. false;
  get_denom_prefix = λ p c. [];
}

abbrev pub books : Books
books = record { balance = λ a d. pos 100; supply = λ d. pos 1000; traces = []; packets = 3 }

-- The token 1 of the parachain, received on channel-1.
abbrev pub arriving : Packet
arriving = record {
  sequence = 9;
  source_port = bytes "transfer";
  source_channel = bytes "channel-7";
  dest_port = bytes "transfer";
  dest_channel = bytes "channel-1";
  payload = bytes "1";
}

abbrev pub token_data : FungibleTokenPacketData
token_data = record {
  denom = bytes "1";
  amount = bytes "5";
  sender = bytes "alice";
  receiver = bytes "bob";
  memo = [];
}

abbrev received_books : Books
received_books = (on_recv_packet one_token arriving token_data books).1

arrives : on_recv_packet one_token arriving token_data books ≡ (ok tt, received_books)
unfolding on_recv_packet received_trace keep_denom_trace lock_and_mint new_coin eq_bytes Assoc.get
    Assoc.set no_entries lookup add_parachain_ibc_token_info add_parachain_ibc_info
arrives = refl

abbrev ppica : ℤ → Coin
ppica amount = record { denom = bytes "ppica"; amount = amount }

abbrev ibc_a : ℤ → Coin
ibc_a amount = record { denom = bytes "ibc/A"; amount = amount }

on_recv_packet-exchanges_example :
    ((info : ParachainIbcTokenInfo) × IsBridged one_token
        (bytes "1")
        (bytes "ibc/A")
        (bytes "channel-1")
        info
      × Changes books received_books (
          exchange
            (bytes "bob")
            (bytes "escrow/transfer/channel-1")
            (ibc_a (pos 5))
            (record { denom = info.native_denom; amount = pos 5 })))
    ⊎ (((info : ParachainIbcTokenInfo)
          → ¬ IsBridged one_token (bytes "1") (bytes "ibc/A") (bytes "channel-1") info)
        × Changes books received_books no_change)
unfolding received_trace eq_bytes
on_recv_packet-exchanges_example =
    on_recv_packet-exchanges one_token arriving token_data (bytes "bob") (pos 5) books refl refl
      refl sample_laws received_books one_token-IsConsistent (λ e. cc) refl arrives

-- The same token, sent back on channel-1 and refused there.
abbrev pub refused_packet : Packet
refused_packet = record arriving {
  source_channel = bytes "channel-1";
  dest_channel = bytes "channel-7";
}

abbrev refunded_books : Books
refunded_books = (refund_token one_token refused_packet token_data books).1

refunds : refund_token one_token refused_packet token_data books ≡ (ok tt, refunded_books)
unfolding refund_token lock_and_refund new_coin eq_bytes Assoc.get Assoc.set no_entries lookup
    add_parachain_ibc_token_info add_parachain_ibc_info has_prefix
refunds = refl

refund_token-exchanges_example :
    ((info : ParachainIbcTokenInfo) × IsListed one_token (bytes "ibc/A") (bytes "channel-1") info
      × Changes books refunded_books (
          exchange
            (bytes "alice")
            (bytes "escrow/transfer/channel-1")
            (ibc_a (pos 5))
            (record { denom = info.native_denom; amount = pos 5 })))
    ⊎ (((info : ParachainIbcTokenInfo)
          → ¬ IsListed one_token (bytes "ibc/A") (bytes "channel-1") info)
        × (refunded_books ≡ books))
unfolding eq_bytes has_prefix
refund_token-exchanges_example =
    refund_token-exchanges one_token refused_packet token_data (bytes "alice") (pos 5) books refl
      refl refl sample_laws refunded_books one_token-IsConsistent refl refunds

-- The native token, sent on channel-1 as packet 3.
abbrev outgoing : Outgoing
outgoing = record {
  source_port = bytes "transfer";
  source_channel = bytes "channel-1";
  timeout_height = record { revision_number = 0; revision_height = 0 };
  timeout_timestamp = 900;
  payload = bytes "ppica";
}

abbrev native_data : FungibleTokenPacketData
native_data = record token_data { denom = bytes "ppica" }

abbrev sent_books : Books
sent_books = (send_packet one_token outgoing books).1

sends : send_packet one_token outgoing books ≡ (ok 3, sent_books)
unfolding send_packet handle_override_send_packet_transfer_logic burn_and_release
    execute_transfer_msg new_coin eq_bytes Assoc.get Assoc.set no_entries lookup
    add_parachain_ibc_token_info add_parachain_ibc_info
sends = refl

send_packet-releases_example :
    ((info : ParachainIbcTokenInfo) × (sender : Bytes) × (amount : ℤ) × (u : Books) × IsNative
        one_token
        (bytes "ppica")
        (bytes "channel-1")
        info
      × IsReleased sender
          (bytes "escrow/transfer/channel-1")
          (record { denom = info.ibc_denom; amount = amount })
          (ppica amount)
          books
          u
      × (sample_host.transfer
            (override_msg outgoing native_data (record { denom = info.ibc_denom; amount = amount }))
            u
          ≡ (ok 3, sent_books)))
    ⊎ (((info : ParachainIbcTokenInfo)
          → ¬ IsNative one_token (bytes "ppica") (bytes "channel-1") info)
        × (pass_on outgoing books ≡ (ok 3, sent_books)))
send_packet-releases_example =
    send_packet-releases one_token outgoing native_data books refl sample_laws 3 sent_books
      one_token-IsConsistent (λ e. cc) sends

abbrev the_token : ParachainIbcTokenInfo
the_token = record {
  ibc_denom = bytes "ibc/A";
  channel_id = bytes "channel-1";
  native_denom = bytes "ppica";
  asset_id = bytes "1";
}

abbrev released_books : Books
released_books =
    (burn_and_release (bytes "bob") (escrow_of the_token) (ppica (pos 2)) (ibc_a (pos 2))
      received_books).1

-- Five are received, and two of them are sent.
Reach-peg_example : peg the_token released_books ≡ peg the_token books
unfolding eq_bytes Assoc.get Assoc.set no_entries lookup add_parachain_ibc_token_info
    add_parachain_ibc_info burn_and_release
Reach-peg_example =
    Reach-peg sample_laws sample_burns one_token the_token one_token-IsConsistent refl refl
      (λ j e f. ground (arith, eq_bytes_iff (bytes "ppica") j.native_denom))
      (next
        (next here (
          received arriving token_data (bytes "bob") (pos 5) refl refl refl refl (λ e. cc) (λ e. cc)
            arrives))
        (released the_token (bytes "bob") (pos 2) refl (λ e. cc) refl))
