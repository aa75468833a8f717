-- ===== src/TransferMiddleware/Exchange/Refund.antt =====
-- The refund of a packet that failed (refundToken of x/transfermiddleware/keeper/ics4wrapper.go)
-- refines the exchange.
use composable_centauri.Base.{
  Bool, ◌≡◌, refl, sym, ap, ◌∙◌, subst, ◌⊎◌, inl, inr, true, false, ◌&&◌, some, [], arith,
  Bool-cases, Option-cases,
}
use composable_centauri.Base.Int.{ℤ}
use composable_centauri.Base.Bytes.{Bytes, eq_bytes, eq_bytes_iff}
use composable_centauri.Base.Exec.{ok, err, Result-cases}
use composable_centauri.Kv.{Kv}
use composable_centauri.Sdk.{Sdk, Packet, FungibleTokenPacketData}
use composable_centauri.Fees.Config.{Coin}
use composable_centauri.TransferMiddleware.Registry.{Registry, ParachainIbcTokenInfo}
use composable_centauri.TransferMiddleware.Keeper.{
  has_parachain_ibc_token_info_by_native_denom, get_parachain_ibc_token_info_by_native_denom,
  get_native_denom_by_ibc_denom_secondary_index,
}
use composable_centauri.TransferMiddleware.Consistency.{IsConsistent}
use composable_centauri.TransferMiddleware.Host.{Host, Failure, new_coin, new_coin-ok}
use composable_centauri.TransferMiddleware.Ledger.{Changes, BankLaws}
use composable_centauri.TransferMiddleware.Relay.{lock_and_refund, refund_token}
use composable_centauri.TransferMiddleware.Exchange.{
  exchange, lock_and_refund-exchanges, lock_and_refund-is_denom,
}

module _ ⦃host : Host⦄ ⦃sdk : Sdk⦄ ⦃kv : Kv⦄ where
  -- The IBC denom and the channel are those of a registered token.
  pub record IsListed (r : Registry) (ibc_denom channel : Bytes) (info : ParachainIbcTokenInfo)
      : Type 0 where
    pub native : kv.get info.native_denom r.info_by_native_denom ≡ some info
    pub ibc_same : info.ibc_denom ≡ ibc_denom
    pub channel_same : info.channel_id ≡ channel

  -- The test that refundToken makes.
  abbrev is_listed : Registry → Bytes → Bytes → Bool
  is_listed r ibc_denom channel =
      let native_denom : Bytes = get_native_denom_by_ibc_denom_secondary_index ibc_denom r in
      has_parachain_ibc_token_info_by_native_denom native_denom r
      && eq_bytes channel (get_parachain_ibc_token_info_by_native_denom native_denom r).channel_id

  is_listed_complete :
      (r : Registry) (ibc_denom channel : Bytes) (info : ParachainIbcTokenInfo)
      → IsConsistent r
      → IsListed r ibc_denom channel info
      → is_listed r ibc_denom channel ≡ true
  is_listed_complete r ibc_denom channel info h b = ground (
    arith,
    h.native info.native_denom info,
    b.native,
    b.ibc_same,
    b.channel_same,
    eq_bytes_iff channel info.channel_id,
  )

  -- But for an empty native denom.
  is_listed_sound :
      (r : Registry) (ibc_denom channel : Bytes)
      → IsConsistent r
      → is_listed r ibc_denom channel ≡ true
      → (info : ParachainIbcTokenInfo) × (kv.get info.native_denom r.info_by_native_denom
          ≡ some info)
        × (get_native_denom_by_ibc_denom_secondary_index ibc_denom r ≡ info.native_denom)
        × (info.channel_id ≡ channel)
        × ((info.native_denom ≡ []) ⊎ (info.ibc_denom ≡ ibc_denom))
  is_listed_sound r ibc_denom channel h e =
      elim (Option-cases (kv.get ibc_denom r.native_denom_by_ibc_denom)) [
        | inl unknown ↦ elim (Option-cases (kv.get [] r.info_by_native_denom)) [
          | inl missing ↦ absurd (ground arith)
          | inr (info, found) ↦
              let (same, _, _) = h.native [] info found in
              (
                info,
                subst (λ m. kv.get m r.info_by_native_denom ≡ some info) (sym same) found,
                ground arith,
                ground (arith, eq_bytes_iff channel info.channel_id),
                inl same,
              )
        ]
        | inr (n, known) ↦ elim (Option-cases (kv.get n r.info_by_native_denom)) [
          | inl missing ↦ absurd (ground arith)
          | inr (info, found) ↦
              let (same, _, _) = h.native n info found in
              (
                info,
                subst (λ m. kv.get m r.info_by_native_denom ≡ some info) (sym same) found,
                ground arith,
                ground (arith, eq_bytes_iff channel info.channel_id),
                inr (h.ibc_same ibc_denom n info known found),
              )
        ]
      ]

  module _ (r : Registry) (packet : Packet) (packet_data : FungibleTokenPacketData) (sender : Bytes)
      (amount : ℤ) (w : host.World)
      (known : sdk.acc_address_from_bech32 packet_data.sender ≡ some sender)
      (parsed : sdk.new_int_from_string packet_data.amount ≡ some amount)
      (foreign : host.sender_chain_is_source packet.source_port packet.source_channel
          packet_data.denom
        ≡ false) where
    abbrev ibc_denom : Bytes
    ibc_denom = sdk.ibc_denom (sdk.parse_denom_trace packet_data.denom)

    refund_token-bad_coin :
        {e : Failure}
        → new_coin ibc_denom amount ≡ err e
        → refund_token r packet packet_data w ≡ (err e, w)
    unfolding refund_token
    refund_token-bad_coin bad = ground arith

    refund_token-other :
        {token : Coin}
        → new_coin ibc_denom amount ≡ ok token
        → is_listed r ibc_denom packet.source_channel ≡ false
        → refund_token r packet packet_data w ≡ (ok tt, w)
    unfolding refund_token
    refund_token-other made other = rw (refund_token, parsed, made, known, foreign, other) refl

    refund_token-listed :
        {token : Coin} (info : ParachainIbcTokenInfo)
        → new_coin ibc_denom amount ≡ ok token
        → is_listed r ibc_denom packet.source_channel ≡ true
        → get_parachain_ibc_token_info_by_native_denom
            (get_native_denom_by_ibc_denom_secondary_index ibc_denom r)
            r
          ≡ info
        → refund_token r packet packet_data w
          ≡ lock_and_refund sender
              (host.get_escrow_address host.port_id info.channel_id)
              token
              info.native_denom
              amount
              w
    unfolding refund_token
    refund_token-listed info made same e =
        rw (refund_token, parsed, made, known, foreign, same, e) refl

    -- Of a packet with an address and an amount that parse, on a denom that did not start here: if
    -- the refund returns, from a consistent registry, then either the IBC denom and the channel are
    -- those of a registered token, and the voucher moved from the sender to the escrow account while
    -- as much native token was issued to the sender; or there is no such token and nothing changed.
    pub refund_token-exchanges :
        (laws : BankLaws) (w' : host.World)
        → IsConsistent r
        → host.is_denom [] ≡ false
        → refund_token r packet packet_data w ≡ (ok tt, w')
        → let voucher : Coin = record { denom = ibc_denom; amount = amount } in
          ((info : ParachainIbcTokenInfo) × IsListed r ibc_denom packet.source_channel info
            × Changes w w' (
                exchange sender
                  (host.get_escrow_address host.port_id packet.source_channel)
                  voucher
                  (record { denom = info.native_denom; amount = amount })))
          ⊎ (((info : ParachainIbcTokenInfo) → ¬ IsListed r ibc_denom packet.source_channel info)
              × (w' ≡ w))
    refund_token-exchanges laws w' h strict e = elim (Result-cases (new_coin ibc_denom amount)) [
      | inr (x, bad) ↦ absurd (ground (arith, refund_token-bad_coin bad))
      | inl (voucher, made) ↦ elim (Bool-cases (is_listed r ibc_denom packet.source_channel)) [
        | inr other ↦ inr (
          λ info b. absurd (ground (arith, is_listed_complete r _ _ info h b)),
          sym (ap (λ x. x.1) (sym (refund_token-other made other) ∙ e)),
        )
        | inl same ↦
            let (info, found, indexed, on_channel, named) = is_listed_sound r _ _ h same in
            let read : get_parachain_ibc_token_info_by_native_denom
                  (get_native_denom_by_ibc_denom_secondary_index ibc_denom r) r
                ≡ info =
              ground (arith, indexed, found) in
            let locked : lock_and_refund sender
                  (host.get_escrow_address host.port_id info.channel_id) voucher info.native_denom
                  amount w
                ≡ (ok tt, w') =
              sym (refund_token-listed info made same read) ∙ e in
            elim named [
              | inl nameless ↦
                  absurd (ground (arith, lock_and_refund-is_denom _ _ _ _ _ _ _ locked, nameless))
              | inr same_denom ↦ inl (
                info,
                record { native = found; ibc_same = same_denom; channel_same = on_channel },
                subst
                    (λ c. Changes w w' (
                      exchange sender (host.get_escrow_address host.port_id c)
                        (record { denom = ibc_denom; amount = amount })
                        (record { denom = info.native_denom; amount = amount })))
                    on_channel
                    (subst
                      (λ coin. Changes w w' (
                        exchange sender (host.get_escrow_address host.port_id info.channel_id) coin
                          (record { denom = info.native_denom; amount = amount })))
                      (new_coin-ok _ amount voucher made)
                      (lock_and_refund-exchanges laws sender _ voucher info.native_denom amount w w'
                        locked)),
              )
            ]
      ]
    ]
