-- ===== src/TransferMiddleware/Middleware.antt =====
-- The callbacks of the middleware around the transfer application
-- (x/transfermiddleware/ibc_middleware.go): what the relay does beside the application, and the fee
-- of an outgoing transfer, which Fees keeps under the packet's sequence number.
pub mod Refunds
use composable_centauri.Base.{Bool, true, false, Option, none, some, List, [], ◌∷◌}
use composable_centauri.Base.Bytes.{Bytes, eq_bytes}
use composable_centauri.Base.Exec.{Result, ok, err, Exec, pure, raise, modify, ◌>>=◌, ◌>>◌}
use composable_centauri.Kv.{Kv}
use composable_centauri.Sdk.{Sdk, Packet, FungibleTokenPacketData}
use composable_centauri.Fees.Config.{
  Coin, State, get_sequence_fee, delete_sequence_fee, get_channel_fee_address,
}
use composable_centauri.TransferMiddleware.Registry.{Registry}
use composable_centauri.TransferMiddleware.Host.{Host, Failure, bad_packet_data, panicked}
use composable_centauri.TransferMiddleware.Relay as Relay
use composable_centauri.TransferMiddleware.Relay.{Call}

-- An acknowledgement to write: an error of this middleware, or what the application answered.
pub data Answer : Type 0 where
  refused : Failure → Answer
  answered : Bytes → Answer

module _ ⦃host : Host⦄ where
  -- The application below: its callbacks change the rest of the chain.
  pub record Application : Type 0 where
    -- The acknowledgement, and whether it is a success.
    pub receives : Packet → host.World → (Bytes × Bool) × host.World
    pub acknowledges : Packet → Bytes → Call (Unit {0})
    pub times_out : Packet → Call (Unit {0})

  -- RefundChannelCosmosFee
  unfoldable pub refund_channel_cosmos_fee : Bytes → Bytes → List Coin → Call (Unit {0})
  refund_channel_cosmos_fee sender receiver amount = host.send_coins sender receiver amount

  module _ ⦃sdk : Sdk⦄ ⦃kv : Kv⦄ where
    abbrev pub Callback : Type 0 → Type 0
    Callback A = Exec Failure (State host.World) A

    abbrev pub on_world : {A : Type 0} → Call A → Callback A
    on_world call s = let (r, w) = call s.world in (r, record s { world = w })

    -- OnRecvPacket: the answer, or a panic.
    unfoldable pub on_recv_packet :
        Registry → Application → Packet → host.World → Result Failure Answer × host.World
    unfolding Relay.on_recv_packet
    on_recv_packet r app packet w =
        let ((ack, success), w') = app.receives packet w in
        elim (sdk.unmarshal_packet_data packet.payload) [
          | none ↦ (ok (refused bad_packet_data), w')
          | some packet_data ↦ elim success [
            | false ↦ (ok (answered ack), w')
            | true ↦
                let (result, w'') = Relay.on_recv_packet r packet packet_data w' in
                elim result [
                  | ok _ ↦ (ok (answered ack), w'')
                  | err panicked ↦ (err panicked, w'')
                  | err e ↦ (ok (refused e), w'')
                ]
          ]
        ]

    -- The end of OnTimeoutPacket: the fee that was kept for the packet goes back to the sender.
    unfoldable pub refund_fee : Packet → FungibleTokenPacketData → Callback (Unit {0})
    unfolding refund_channel_cosmos_fee
    refund_fee packet packet_data s = elim (get_sequence_fee packet.sequence s) [
      | none ↦ (ok tt, s)
      | some fee ↦
          let channel_fee_address : Bytes = get_channel_fee_address packet.source_channel s in
          elim (eq_bytes channel_fee_address []) [
            | true ↦ (ok tt, s)
            | false ↦ elim (sdk.acc_address_from_bech32 channel_fee_address) [
              | none ↦ (ok tt, s)
              | some fee_address ↦ elim (sdk.acc_address_from_bech32 packet_data.sender) [
                | none ↦ (ok tt, s)
                | some sender_address ↦
                    let (refunded, t) =
                      on_world (refund_channel_cosmos_fee fee_address sender_address (fee ∷ []))
                        s in
                    elim refunded [
                      | ok _ ↦ (ok tt, delete_sequence_fee packet.sequence t)
                      | err panicked ↦ (err panicked, t)
                      | err e ↦ (ok tt, t)
                    ]
              ]
            ]
          ]
    ]

    -- OnTimeoutPacket
    unfoldable pub on_timeout_packet : Registry → Application → Packet → Callback (Unit {0})
    unfolding Relay.on_timeout_packet refund_fee
    on_timeout_packet r app packet = elim (sdk.unmarshal_packet_data packet.payload) [
      | none ↦ raise bad_packet_data
      | some packet_data ↦ do
        on_world (app.times_out packet)
        on_world (Relay.on_timeout_packet r packet packet_data)
        refund_fee packet packet_data
    ]

    -- OnAcknowledgementPacket
    unfoldable pub on_acknowledgement_packet :
        Registry → Application → Packet → Bytes → Callback (Unit {0})
    unfolding Relay.on_acknowledgement_packet
    on_acknowledgement_packet r app packet acknowledgement = do
      on_world (app.acknowledges packet acknowledgement)
      on_world (Relay.on_acknowledgement_packet r packet acknowledgement)
      modify (delete_sequence_fee packet.sequence)
