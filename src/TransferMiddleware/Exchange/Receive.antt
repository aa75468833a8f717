-- ===== src/TransferMiddleware/Exchange/Receive.antt =====
-- OnRecvPacket of the keeper (x/transfermiddleware/keeper/relay.go) refines the exchange.
use composable_centauri.Base.{
  Bool, ◌≡◌, refl, sym, ap, ◌∙◌, subst, ◌≢◌, ◌⊎◌, inl, inr, true, false, ◌&&◌, some, [], arith,
  Bool-cases, Option-cases,
}
use composable_centauri.Base.Int.{ℤ}
use composable_centauri.Base.Bytes.{Bytes, eq_bytes, eq_bytes_iff}
use composable_centauri.Base.Exec.{ok, err, Result-cases}
use composable_centauri.Kv.{Kv}
use composable_centauri.Sdk.{Sdk, DenomTrace, Packet, FungibleTokenPacketData}
use composable_centauri.Fees.Config.{Coin}
use composable_centauri.TransferMiddleware.Registry.{Registry, ParachainIbcTokenInfo}
use composable_centauri.TransferMiddleware.Keeper.{
  get_parachain_ibc_token_info_by_asset_id, get_native_denom_by_ibc_denom_secondary_index,
}
use composable_centauri.TransferMiddleware.Consistency.{IsConsistent}
use composable_centauri.TransferMiddleware.Host.{Host, Failure, new_coin, new_coin-ok}
use composable_centauri.TransferMiddleware.Ledger.{
  Changes, BankLaws, no_change, Changes-and_then, after_no_change,
}
use composable_centauri.TransferMiddleware.Relay.{
  lock_and_mint, keep_denom_trace, received_trace, on_recv_packet,
}
use composable_centauri.TransferMiddleware.Exchange.{
  exchange, keep_denom_trace-Changes, lock_and_mint-exchanges, lock_and_mint-is_denom,
}

module _ ⦃host : Host⦄ where
  module _ ⦃sdk : Sdk⦄ ⦃kv : Kv⦄ where
    -- The token is registered under the asset id, the voucher's denom and the channel.
    pub record IsBridged (r : Registry) (asset_id voucher channel : Bytes)
        (info : ParachainIbcTokenInfo) : Type 0 where
      pub asset : kv.get asset_id r.info_by_asset_id ≡ some info
      pub ibc_same : info.ibc_denom ≡ voucher
      pub channel_same : info.channel_id ≡ channel

    -- The test that OnRecvPacket makes.
    abbrev is_bridged : Registry → Bytes → Bytes → Bytes → Bool
    is_bridged r asset_id voucher channel =
        let info : ParachainIbcTokenInfo = get_parachain_ibc_token_info_by_asset_id asset_id r in
        eq_bytes (get_native_denom_by_ibc_denom_secondary_index voucher r) info.native_denom
        && eq_bytes channel info.channel_id

    is_bridged_complete :
        (r : Registry) (asset_id voucher channel : Bytes) (info : ParachainIbcTokenInfo)
        → IsConsistent r
        → IsBridged r asset_id voucher channel info
        → is_bridged r asset_id voucher channel ≡ true
    is_bridged_complete r asset_id voucher channel info h b = ground (
      arith,
      h.asset asset_id info,
      h.native info.native_denom info,
      b.asset,
      b.ibc_same,
      b.channel_same,
      eq_bytes_iff info.native_denom info.native_denom,
      eq_bytes_iff channel info.channel_id,
    )

    -- But for an empty native denom and an empty channel.
    is_bridged_sound :
        (r : Registry) (asset_id voucher channel : Bytes)
        → IsConsistent r
        → channel ≢ []
        → is_bridged r asset_id voucher channel ≡ true
        → (info : ParachainIbcTokenInfo) × (kv.get asset_id r.info_by_asset_id ≡ some info)
          × (info.channel_id ≡ channel)
          × ((info.native_denom ≡ []) ⊎ (info.ibc_denom ≡ voucher))
    is_bridged_sound r asset_id voucher channel h ne e =
        elim (Option-cases (kv.get asset_id r.info_by_asset_id)) [
          | inl missing ↦ absurd (ground (arith, eq_bytes_iff channel []))
          | inr (info, found) ↦ elim (Option-cases (kv.get voucher r.native_denom_by_ibc_denom)) [
            | inl unknown ↦ (
              info,
              found,
              ground (arith, eq_bytes_iff channel info.channel_id),
              inl (ground (arith, eq_bytes_iff [] info.native_denom)),
            )
            | inr (n, known) ↦ (
              info,
              found,
              ground (arith, eq_bytes_iff channel info.channel_id),
              inr (
                  ground (
                    arith,
                    eq_bytes_iff n info.native_denom,
                    h.asset asset_id info,
                    h.ibc_same voucher n info,
                  )),
            )
          ]
        ]

    module _ (r : Registry) (packet : Packet) (packet_data : FungibleTokenPacketData)
        (receiver : Bytes) (amount : ℤ) (w : host.World)
        (known : sdk.acc_address_from_bech32 packet_data.receiver ≡ some receiver)
        (parsed : sdk.new_int_from_string packet_data.amount ≡ some amount)
        (foreign : sdk.receiver_chain_is_source packet.source_port packet.source_channel
            packet_data.denom
          ≡ false) where
      abbrev trace : DenomTrace
      trace = received_trace packet packet_data

      on_recv_packet-bad_coin :
          {e : Failure}
          → new_coin (sdk.ibc_denom trace) amount ≡ err e
          → on_recv_packet r packet packet_data w ≡ (err e, keep_denom_trace trace w)
      unfolding on_recv_packet
      on_recv_packet-bad_coin bad = ground arith

      on_recv_packet-other :
          {voucher : Coin}
          → new_coin (sdk.ibc_denom trace) amount ≡ ok voucher
          → is_bridged r packet_data.denom (sdk.ibc_denom trace) packet.dest_channel ≡ false
          → on_recv_packet r packet packet_data w ≡ (ok tt, keep_denom_trace trace w)
      unfolding on_recv_packet
      on_recv_packet-other made other =
          rw (on_recv_packet, known, parsed, foreign, made, other) refl

      on_recv_packet-bridged :
          {voucher : Coin}
          → new_coin (sdk.ibc_denom trace) amount ≡ ok voucher
          → is_bridged r packet_data.denom (sdk.ibc_denom trace) packet.dest_channel ≡ true
          → on_recv_packet r packet packet_data w
            ≡ lock_and_mint receiver
                (host.get_escrow_address packet.dest_port packet.dest_channel)
                voucher
                (get_parachain_ibc_token_info_by_asset_id packet_data.denom r).native_denom
                amount
                (keep_denom_trace trace w)
      unfolding on_recv_packet
      on_recv_packet-bridged made same = ground arith

      -- Of a packet with an address and an amount that parse, to a channel with a name, on a denom that
      -- did not start here: if the callback returns, from a consistent registry, then either the token
      -- is bridged (its asset id, the voucher's denom and the channel are those of one info), and what
      -- the bank's books changed by is that the voucher moved from the receiver to the escrow account
      -- and as much native token was issued to the receiver; or it is not, and the books are as they
      -- were.
      pub on_recv_packet-exchanges :
          (laws : BankLaws) (w' : host.World)
          → IsConsistent r
          → packet.dest_channel ≢ []
          → host.is_denom [] ≡ false
          → on_recv_packet r packet packet_data w ≡ (ok tt, w')
          → let voucher : Coin = record { denom = sdk.ibc_denom trace; amount = amount } in
            ((info : ParachainIbcTokenInfo) × IsBridged r packet_data.denom voucher.denom
                packet.dest_channel info
              × Changes w w' (
                  exchange receiver
                    (host.get_escrow_address packet.dest_port packet.dest_channel)
                    voucher
                    (record { denom = info.native_denom; amount = amount })))
            ⊎ (((info : ParachainIbcTokenInfo)
                  → ¬ IsBridged r packet_data.denom voucher.denom packet.dest_channel info)
                × Changes w w' no_change)
      on_recv_packet-exchanges laws w' h ne strict e =
          elim (Result-cases (new_coin (sdk.ibc_denom trace) amount)) [
            | inr (x, bad) ↦ absurd (ground (arith, on_recv_packet-bad_coin bad))
            | inl (voucher, made) ↦
                elim (Bool-cases
                  (is_bridged r packet_data.denom (sdk.ibc_denom trace) packet.dest_channel)) [
                    | inr other ↦
                        let same : keep_denom_trace trace w ≡ w' =
                          ap (λ x. x.1) (sym (on_recv_packet-other made other) ∙ e) in
                        inr (
                          λ info b. absurd (
                              ground (arith, is_bridged_complete r packet_data.denom _ _ info h b)),
                          subst (λ u. Changes w u no_change) same
                              (keep_denom_trace-Changes laws trace w),
                        )
                    | inl same ↦
                        let (info, found, on_channel, named) =
                          is_bridged_sound r packet_data.denom _ _ h ne same in
                        let locked : lock_and_mint receiver
                              (host.get_escrow_address packet.dest_port packet.dest_channel) voucher
                              info.native_denom amount (keep_denom_trace trace w)
                            ≡ (ok tt, w') =
                          ground (arith, on_recv_packet-bridged made same) in
                        let moved : Changes w w' (
                            exchange receiver
                              (host.get_escrow_address packet.dest_port packet.dest_channel) voucher
                              (record { denom = info.native_denom; amount = amount })) =
                          after_no_change w w' _ (
                            Changes-and_then w _ w' _ _ (keep_denom_trace-Changes laws trace w) (
                              lock_and_mint-exchanges laws receiver _ voucher info.native_denom
                                amount _ w' locked)) in
                        elim named [
                          | inl nameless ↦ absurd (
                              ground (arith, lock_and_mint-is_denom _ _ _ _ _ _ _ locked, nameless))
                          | inr same_denom ↦ inl (
                            info,
                            record {
                              asset = found;
                              ibc_same = same_denom;
                              channel_same = on_channel;
                            },
                            rw (← new_coin-ok _ amount voucher made) moved,
                          )
                        ]
                  ]
          ]
