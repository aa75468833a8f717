-- ===== src/TransferMiddleware/Exchange/Release.antt =====
-- The packets that the bridge sends (SendPacket of x/transfermiddleware/keeper/ics4wrapper.go): they
-- refine a release, the exchange undone.
pub mod Burn
use composable_centauri.Base.{
  ℕ, Bool, not, ◌||◌, ◌≡◌, refl, sym, ◌∙◌, subst, ◌≢◌, ◌⊎◌, inl, inr, true, false, some, [], arith,
  Bool-cases, Option-cases,
}
use composable_centauri.Base.Int.{ℤ}
use composable_centauri.Base.Bytes.{Bytes, eq_bytes, eq_bytes_iff}
use composable_centauri.Base.Exec.{ok, err, Exec-cases, Result-cases}
use composable_centauri.Kv.{Kv}
use composable_centauri.Sdk.{Sdk, FungibleTokenPacketData}
use composable_centauri.Fees.Config.{Coin}
use composable_centauri.Fees.Transfer.{new_coins}
use composable_centauri.TransferMiddleware.Registry.{Registry, ParachainIbcTokenInfo}
use composable_centauri.TransferMiddleware.Keeper.{get_parachain_ibc_token_info_by_native_denom}
use composable_centauri.TransferMiddleware.Consistency.{IsConsistent}
use composable_centauri.TransferMiddleware.Host.{
  Host, Failure, MsgTransfer, panicked, new_coin, new_coin-ok,
}
use composable_centauri.TransferMiddleware.Ledger.{
  Change, Changes, destroy, move-destroy, before_no_change, BankLaws, move, ◌and_then◌,
  Changes-and_then,
}
use composable_centauri.TransferMiddleware.Relay.{Call}
use composable_centauri.TransferMiddleware.Ics4Wrapper.{
  Outgoing, ignoring_error, burn_and_release, execute_transfer_msg, override_msg, pass_on,
  handle_override_send_packet_transfer_logic, send_packet,
}
use composable_centauri.TransferMiddleware.Exchange.Release.Burn.{
  IsReleased, burn_and_release-IsReleased,
}

module _ ⦃host : Host⦄ where
  execute_transfer_msg-returned :
      (msg : MsgTransfer) (sequence : ℕ) (u w' : host.World)
      → execute_transfer_msg msg u ≡ (ok sequence, w')
      → host.transfer msg u ≡ (ok sequence, w')
  unfolding execute_transfer_msg
  execute_transfer_msg-returned msg sequence u w' e = elim (Bool-cases (host.validate_basic msg)) [
    | inl valid ↦ ground arith
    | inr invalid ↦ absurd (ground arith)
  ]

  module _ ⦃sdk : Sdk⦄ ⦃kv : Kv⦄ where
    -- The denom and the channel are those of a registered token.
    pub record IsNative (r : Registry) (denom channel : Bytes) (info : ParachainIbcTokenInfo)
        : Type 0 where
      pub native : kv.get denom r.info_by_native_denom ≡ some info
      pub channel_same : info.channel_id ≡ channel

    -- The test that SendPacket makes for passing a packet on.
    abbrev is_foreign : Registry → Bytes → Bytes → Bool
    is_foreign r denom channel =
        let info : ParachainIbcTokenInfo = get_parachain_ibc_token_info_by_native_denom denom r in
        not (eq_bytes info.channel_id channel) || not (eq_bytes info.native_denom denom)

    is_foreign_complete :
        (r : Registry) (denom channel : Bytes) (info : ParachainIbcTokenInfo)
        → IsConsistent r
        → IsNative r denom channel info
        → is_foreign r denom channel ≡ false
    is_foreign_complete r denom channel info h b = ground (
      arith,
      h.native denom info,
      b.native,
      b.channel_same,
      eq_bytes_iff info.channel_id channel,
      eq_bytes_iff info.native_denom denom,
    )

    is_foreign_sound :
        (r : Registry) (denom channel : Bytes)
        → channel ≢ []
        → is_foreign r denom channel ≡ false
        → (info : ParachainIbcTokenInfo) × IsNative r denom channel info
    is_foreign_sound r denom channel ne e =
        elim (Option-cases (kv.get denom r.info_by_native_denom)) [
          | inl missing ↦ absurd (ground (arith, eq_bytes_iff [] channel))
          | inr (info, found) ↦ (
            info,
            record {
              native = found;
              channel_same = ground (arith, eq_bytes_iff info.channel_id channel);
            },
          )
        ]

    module _ (r : Registry) (out : Outgoing) (packet_data : FungibleTokenPacketData)
        (w : host.World) (decoded : sdk.unmarshal_packet_data out.payload ≡ some packet_data) where
      send_packet-foreign :
          is_foreign r packet_data.denom out.source_channel ≡ true
          → send_packet r out w ≡ pass_on out w
      unfolding send_packet
      send_packet-foreign e = rw (send_packet, decoded, e) refl

      send_packet-override :
          is_foreign r packet_data.denom out.source_channel ≡ false
          → send_packet r out w ≡ handle_override_send_packet_transfer_logic r out w
      unfolding send_packet
      send_packet-override e = rw (send_packet, decoded, e) refl

      override-releases :
          (laws : BankLaws) (info : ParachainIbcTokenInfo) (sequence : ℕ) (w' : host.World)
          → kv.get packet_data.denom r.info_by_native_denom ≡ some info
          → handle_override_send_packet_transfer_logic r out w ≡ (ok sequence, w')
          → (sender : Bytes) × (amount : ℤ) × (u : host.World) × (sdk.acc_address_from_bech32
                packet_data.sender
              ≡ some sender)
            × (sdk.new_int_from_string packet_data.amount ≡ some amount)
            × IsReleased sender
                (host.get_escrow_address out.source_port out.source_channel)
                (record { denom = info.ibc_denom; amount = amount })
                (record { denom = packet_data.denom; amount = amount })
                w
                u
            × (host.transfer
                  (override_msg out packet_data
                    (record { denom = info.ibc_denom; amount = amount }))
                  u
                ≡ (ok sequence, w'))
      unfolding handle_override_send_packet_transfer_logic
      override-releases laws info sequence w' found e =
          elim (Option-cases (sdk.acc_address_from_bech32 packet_data.sender)) [
            | inl unknown ↦ absurd (ground arith)
            | inr (sender, known) ↦
                elim (Option-cases (sdk.new_int_from_string packet_data.amount)) [
                  | inl unparsed ↦ absurd (ground arith)
                  | inr (amount, parsed) ↦ elim (Result-cases (new_coin packet_data.denom amount)) [
                    | inr (x, bad) ↦ absurd (ground arith)
                    | inl (native, made) ↦ elim (Result-cases (new_coin info.ibc_denom amount)) [
                      | inr (x, bad) ↦ absurd (ground arith)
                      | inl (voucher, made2) ↦
                          elim (Exec-cases (
                            burn_and_release sender
                              (host.get_escrow_address out.source_port out.source_channel) native
                              voucher w)) [
                                | inr (x, u, failed) ↦ absurd (ground arith)
                                | inl (_, u, released) ↦
                                    let sent : execute_transfer_msg
                                          (override_msg out packet_data voucher) u
                                        ≡ (ok sequence, w') =
                                      ground arith in
                                    let escrow_address : Bytes =
                                      host.get_escrow_address out.source_port out.source_channel in
                                    let same_native =
                                      new_coin-ok packet_data.denom amount native made in
                                    let same_voucher =
                                      new_coin-ok info.ibc_denom amount voucher made2 in
                                    (
                                      sender,
                                      amount,
                                      u,
                                      known,
                                      parsed,
                                      subst
                                          (λ coin.
                                            IsReleased sender escrow_address coin
                                              (record {
                                                denom = packet_data.denom;
                                                amount = amount;
                                              })
                                              w u)
                                          same_voucher
                                          (subst
                                            (λ coin.
                                              IsReleased sender escrow_address voucher coin w u)
                                            same_native
                                            (burn_and_release-IsReleased laws sender escrow_address
                                              native voucher w u released)),
                                      subst
                                          (λ coin.
                                            host.transfer (override_msg out packet_data coin) u
                                            ≡ (ok sequence, w'))
                                          same_voucher
                                          (execute_transfer_msg-returned
                                            (override_msg out packet_data voucher) sequence u w'
                                            sent),
                                    )
                              ]
                    ]
                  ]
                ]
          ]

      pub send_packet-releases :
          (laws : BankLaws) (sequence : ℕ) (w' : host.World)
          → IsConsistent r
          → out.source_channel ≢ []
          → send_packet r out w ≡ (ok sequence, w')
          → ((info : ParachainIbcTokenInfo) × (sender : Bytes) × (amount : ℤ) × (u : host.World)
              × IsNative r packet_data.denom out.source_channel info
              × IsReleased sender
                  (host.get_escrow_address out.source_port out.source_channel)
                  (record { denom = info.ibc_denom; amount = amount })
                  (record { denom = packet_data.denom; amount = amount })
                  w
                  u
              × (host.transfer
                    (override_msg out packet_data
                      (record { denom = info.ibc_denom; amount = amount }))
                    u
                  ≡ (ok sequence, w')))
            ⊎ (((info : ParachainIbcTokenInfo)
                  → ¬ IsNative r packet_data.denom out.source_channel info)
                × (pass_on out w ≡ (ok sequence, w')))
      send_packet-releases laws sequence w' h ne e =
          elim (Bool-cases (is_foreign r packet_data.denom out.source_channel)) [
            | inl foreign ↦ inr (
              λ info b. absurd (ground (arith, is_foreign_complete r _ _ info h b)),
              sym (send_packet-foreign foreign) ∙ e,
            )
            | inr own ↦
                let (info, b) = is_foreign_sound r _ _ ne own in
                let (sender, amount, u, _, _, released, sent) =
                  override-releases laws info sequence w' b.native
                    (sym (send_packet-override own) ∙ e) in
                inl (info, sender, amount, u, b, released, sent)
          ]
