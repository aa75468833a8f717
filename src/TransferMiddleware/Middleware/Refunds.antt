-- ===== src/TransferMiddleware/Middleware/Refunds.antt =====
-- What becomes of the fee that was kept for a packet.
use composable_centauri.Base.{
  ℕ, ◌≡◌, refl, ap, subst, ◌∙◌, ◌⊎◌, inl, inr, some, none, [], ◌∷◌, arith, Bool-cases, Option-cases,
}
use composable_centauri.Base.Bytes.{Bytes, eq_bytes, eq_bytes_refl}
use composable_centauri.Base.Exec.{ok, err, Exec-cases}
use composable_centauri.Kv.{Kv}
use composable_centauri.Sdk.{Sdk, Packet, FungibleTokenPacketData}
use composable_centauri.Fees.Config.{
  Coin, State, get_sequence_fee, delete_sequence_fee, get_channel_fee_address, get_sequence_key,
}
use composable_centauri.TransferMiddleware.Registry.{Registry}
use composable_centauri.TransferMiddleware.Host.{Host, Failure, panicked}
use composable_centauri.TransferMiddleware.Relay as Relay
use composable_centauri.TransferMiddleware.Middleware.{
  Application, refund_fee, refund_channel_cosmos_fee, on_acknowledgement_packet,
}

module _ ⦃host : Host⦄ ⦃sdk : Sdk⦄ ⦃kv : Kv⦄ where
  delete-get :
      (sequence : ℕ) (s : State host.World)
      → get_sequence_fee sequence (delete_sequence_fee sequence s) ≡ none
  unfolding get_sequence_fee delete_sequence_fee
  delete-get sequence s =
      let key : Bytes = get_sequence_key sequence in
      ground (arith, kv.get-delete key key s.sequence_fees, eq_bytes_refl key)

  refund_fee-missing :
      (packet : Packet) (packet_data : FungibleTokenPacketData) (s : State host.World)
      → get_sequence_fee packet.sequence s ≡ none
      → refund_fee packet packet_data s ≡ (ok tt, s)
  unfolding refund_fee
  refund_fee-missing packet packet_data s e = rw (refund_fee, e) refl

  still_kept :
      (sequence : ℕ) (fee : Coin) (w : host.World) (s : State host.World)
      → get_sequence_fee sequence s ≡ some fee
      → get_sequence_fee sequence (record s { world = w }) ≡ some fee
  unfolding get_sequence_fee
  still_kept sequence fee w s e = e

  -- The channel's fee address paid the fee to the sender; the fee is forgotten, and what else is kept
  -- beside the bank is as it was.
  pub record WasRefunded (packet : Packet) (packet_data : FungibleTokenPacketData) (fee : Coin)
      (s t : State host.World) : Type 0 where
    pub fee_address : Bytes
    pub named :
        sdk.acc_address_from_bech32 (get_channel_fee_address packet.source_channel s)
        ≡ some fee_address
    pub sender : Bytes
    pub sends : sdk.acc_address_from_bech32 packet_data.sender ≡ some sender
    pub paid : host.send_coins fee_address sender (fee ∷ []) s.world ≡ (ok tt, t.world)
    pub changed : t ≡ delete_sequence_fee packet.sequence (record s { world = t.world })
    pub forgotten : get_sequence_fee packet.sequence t ≡ none
    pub not_again : refund_fee packet packet_data t ≡ (ok tt, t)

  -- Nothing was paid, the bank being as it was or having refused the payment; the fee is still kept,
  -- and so is all else beside the bank.
  pub record IsUnpaid (packet : Packet) (packet_data : FungibleTokenPacketData) (fee : Coin)
      (s t : State host.World) : Type 0 where
    pub kept : get_sequence_fee packet.sequence t ≡ some fee
    pub same : t ≡ record s { world = t.world }
    pub unpaid :
        (t.world ≡ s.world)
        ⊎ ((fee_address : Bytes) × (sender : Bytes) × (failure : Failure) × (host.send_coins
                fee_address sender
                (fee ∷ [])
                s.world
              ≡ (err failure, t.world)))

  unchanged-IsUnpaid :
      (packet : Packet) (packet_data : FungibleTokenPacketData) (fee : Coin)
      {s t : State host.World}
      → get_sequence_fee packet.sequence s ≡ some fee
      → s ≡ t
      → IsUnpaid packet packet_data fee s t
  unchanged-IsUnpaid packet packet_data fee {s} kept e =
      subst (λ u. IsUnpaid packet packet_data fee s u) e
        (record { kept = kept; same = refl; unpaid = inl refl })

  -- A fee that is kept for a packet, once the timeout has returned, was either paid back by the
  -- channel's fee address to the sender and is forgotten, so that a second timeout pays nothing and
  -- changes nothing; or it is still kept and nothing was paid, as the bank is as it was or refused the
  -- payment. Either way nothing else but the bank changed.
  pub refund_fee-once :
      (packet : Packet) (packet_data : FungibleTokenPacketData) (fee : Coin)
      (s t : State host.World)
      → get_sequence_fee packet.sequence s ≡ some fee
      → refund_fee packet packet_data s ≡ (ok tt, t)
      → WasRefunded packet packet_data fee s t ⊎ IsUnpaid packet packet_data fee s t
  unfolding refund_fee refund_channel_cosmos_fee delete_sequence_fee
  refund_fee-once packet packet_data fee s t kept e =
      let named : Bytes = get_channel_fee_address packet.source_channel s in
      elim (Bool-cases (eq_bytes named [])) [
        | inl nameless ↦ inr (unchanged-IsUnpaid packet packet_data fee kept (ground arith))
        | inr found ↦ elim (Option-cases (sdk.acc_address_from_bech32 named)) [
          | inl bad ↦ inr (unchanged-IsUnpaid packet packet_data fee kept (ground arith))
          | inr (fee_address, known) ↦
              elim (Option-cases (sdk.acc_address_from_bech32 packet_data.sender)) [
                | inl bad ↦ inr (unchanged-IsUnpaid packet packet_data fee kept (ground arith))
                | inr (sender, sends) ↦
                    elim (Exec-cases (host.send_coins fee_address sender (fee ∷ []) s.world)) [
                      | inr (panicked, w, failed) ↦ absurd (ground arith)
                      | inr (x, w, failed) ↦
                          let after : State host.World = record s { world = w } in
                          let same : after ≡ t = ground arith in
                          inr (
                            subst (λ u. IsUnpaid packet packet_data fee s u) same
                              (record {
                                kept = still_kept packet.sequence fee w s kept;
                                same = refl;
                                unpaid = inr (fee_address, sender, x, failed);
                              }))
                      | inl (_, w, paid) ↦
                          let after : State host.World =
                            delete_sequence_fee packet.sequence (record s { world = w }) in
                          let same : after ≡ t = ground arith in
                          let gone : get_sequence_fee packet.sequence after ≡ none =
                            delete-get packet.sequence (record s { world = w }) in
                          inl (
                            subst (λ u. WasRefunded packet packet_data fee s u) same
                              (record {
                                fee_address = fee_address;
                                named = known;
                                sender = sender;
                                sends = sends;
                                paid = paid;
                                changed = refl;
                                forgotten = gone;
                                not_again = refund_fee-missing packet packet_data after gone;
                              }))
                    ]
              ]
        ]
      ]

  -- After an acknowledgement was handled without an error, whether the acknowledgement is a success
  -- or an error, the fee of the packet is forgotten; the bank's books are what the application below
  -- and then the refund of the token left, so nothing of the fee was paid back.
  pub on_acknowledgement_packet-forgets :
      (r : Registry) (app : Application) (packet : Packet) (ack : Bytes) (s t : State host.World)
      → on_acknowledgement_packet r app packet ack s ≡ (ok tt, t)
      → (get_sequence_fee packet.sequence t ≡ none)
        × ((u : host.World) × (app.acknowledges packet ack s.world ≡ (ok tt, u))
            × (Relay.on_acknowledgement_packet r packet ack u ≡ (ok tt, t.world)))
  unfolding on_acknowledgement_packet delete_sequence_fee
  on_acknowledgement_packet-forgets r app packet ack s t e =
      elim (Exec-cases (app.acknowledges packet ack s.world)) [
        | inr (x, u, failed) ↦ absurd (ground arith)
        | inl (_, u, handled) ↦ elim (Exec-cases (Relay.on_acknowledgement_packet r packet ack u)) [
          | inr (x, v, failed) ↦ absurd (ground arith)
          | inl (_, v, refunded) ↦
              let same : delete_sequence_fee packet.sequence (record s { world = v }) ≡ t =
                ground arith in
              (
                subst (λ z. get_sequence_fee packet.sequence z ≡ none) same
                    (delete-get packet.sequence (record s { world = v })),
                (u, handled, refunded ∙ ap (λ z. (ok tt, z.world)) same),
              )
        ]
      ]
