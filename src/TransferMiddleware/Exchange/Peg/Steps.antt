-- ===== src/TransferMiddleware/Exchange/Peg/Steps.antt =====
-- The peg over the steps of the relay.
use composable_centauri.Base.{◌≡◌, refl, sym, ap, ◌∙◌, ◌≢◌, inl, inr, false, some, []}
use composable_centauri.Base.Int.{ℤ}
use composable_centauri.Base.Bytes.{Bytes}
use composable_centauri.Base.Exec.{ok}
use composable_centauri.Kv.{Kv}
use composable_centauri.Sdk.{Sdk, Packet, FungibleTokenPacketData}
use composable_centauri.TransferMiddleware.Registry.{Registry, ParachainIbcTokenInfo}
use composable_centauri.TransferMiddleware.Consistency.{IsConsistent}
use composable_centauri.TransferMiddleware.Host.{Host}
use composable_centauri.TransferMiddleware.Ledger.{BankLaws, no_change}
use composable_centauri.TransferMiddleware.Relay.{on_recv_packet, refund_token}
use composable_centauri.TransferMiddleware.Ics4Wrapper.{burn_and_release}
use composable_centauri.TransferMiddleware.Exchange.Receive.{on_recv_packet-exchanges}
use composable_centauri.TransferMiddleware.Exchange.Refund.{refund_token-exchanges}
use composable_centauri.TransferMiddleware.Exchange.Release.Burn.{
  burn_and_release-burnt, BurnsWhatIsTaken,
}
use composable_centauri.TransferMiddleware.Exchange.Peg.{
  peg, escrow_of, ibc_coin, native_coin, IsRegistered, Changes-peg, no_change-IsBalanced,
  exchanged-peg, escrow_same, release-IsBalanced,
}

module _ ⦃host : Host⦄ ⦃kv : Kv⦄ ⦃sdk : Sdk⦄ where
  -- What the relay does, for a registry: it exchanges a received token or a refunded one, or
  -- releases one that is sent. None of it is done for the escrow account of a given token.
  pub data Step (r : Registry) (i : ParachainIbcTokenInfo) (w w' : host.World) : Type 0 where
    received :
        (packet : Packet) (packet_data : FungibleTokenPacketData) (receiver : Bytes) (amount : ℤ)
        → sdk.acc_address_from_bech32 packet_data.receiver ≡ some receiver
        → sdk.new_int_from_string packet_data.amount ≡ some amount
        → sdk.receiver_chain_is_source packet.source_port packet.source_channel packet_data.denom
          ≡ false
        → packet.dest_port ≡ host.port_id
        → packet.dest_channel ≢ []
        → receiver ≢ escrow_of i
        → on_recv_packet r packet packet_data w ≡ (ok tt, w')
        → Step r i w w'
    refunded :
        (packet : Packet) (packet_data : FungibleTokenPacketData) (sender : Bytes) (amount : ℤ)
        → sdk.acc_address_from_bech32 packet_data.sender ≡ some sender
        → sdk.new_int_from_string packet_data.amount ≡ some amount
        → host.sender_chain_is_source packet.source_port packet.source_channel packet_data.denom
          ≡ false
        → sender ≢ escrow_of i
        → refund_token r packet packet_data w ≡ (ok tt, w')
        → Step r i w w'
    released :
        (j : ParachainIbcTokenInfo) (sender : Bytes) (amount : ℤ)
        → IsRegistered r j
        → sender ≢ escrow_of i
        → burn_and_release sender (escrow_of j) (native_coin j amount) (ibc_coin j amount) w
          ≡ (ok tt, w')
        → Step r i w w'

  pub data Reach (r : Registry) (i : ParachainIbcTokenInfo) (w : host.World)
      : host.World → Type 0 where
    here : Reach r i w w
    next : {u v : host.World} → Reach r i w u → Step r i u v → Reach r i w v

  -- No registered native denom is the IBC denom of the token.
  abbrev pub IsSeparate : Registry → ParachainIbcTokenInfo → Type 0
  IsSeparate r i = (j : ParachainIbcTokenInfo) → IsRegistered r j → j.native_denom ≢ i.ibc_denom

  Step-peg :
      (laws : BankLaws) (burns : BurnsWhatIsTaken) (r : Registry) (i : ParachainIbcTokenInfo)
      {u v : host.World}
      → IsConsistent r
      → host.is_denom [] ≡ false
      → IsRegistered r i
      → IsSeparate r i
      → Step r i u v
      → peg i v ≡ peg i u
  Step-peg laws burns r i {u} {v} h strict hi sep
        (received packet packet_data receiver amount known parsed foreign port named ne e) =
      elim (on_recv_packet-exchanges r packet packet_data receiver amount u known parsed foreign
        laws v h named strict e) [
          | inl (j, b, c) ↦
              exchanged-peg r i j receiver amount _ _ u v h hi
                (h.asset packet_data.denom j b.asset).1 ne
                (escrow_same packet.dest_port packet.dest_channel j port b.channel_same)
                (sym b.ibc_same) c
          | inr (_, c) ↦ Changes-peg i u v no_change c (no_change-IsBalanced i)
        ]
  Step-peg laws burns r i {u} {v} h strict hi sep
        (refunded packet packet_data sender amount known parsed foreign ne e) =
      elim (refund_token-exchanges r packet packet_data sender amount u known parsed foreign laws v
        h strict e) [
          | inl (j, b, c) ↦
              exchanged-peg r i j sender amount _ _ u v h hi b.native ne
                (escrow_same host.port_id packet.source_channel j refl b.channel_same)
                (sym b.ibc_same) c
          | inr (_, same) ↦ ap (peg i) same
        ]
  Step-peg laws burns r i {u} {v} h strict hi sep (released j sender amount hj ne e) =
      Changes-peg i u v _
        (burn_and_release-burnt laws burns sender (escrow_of j) (native_coin j amount)
          (ibc_coin j amount) u v e)
        (release-IsBalanced r i j sender amount h hi hj ne (sep j hj))

  -- From a consistent registry, the supply of a registered token's native denom, less what is
  -- escrowed of its IBC denom, is the same after any receipts, refunds and releases that are not
  -- for the escrow account itself, where no native denom is that IBC denom and the bank burns
  -- what the transfer module has just taken in.
  pub Reach-peg :
      (laws : BankLaws) (burns : BurnsWhatIsTaken) (r : Registry) (i : ParachainIbcTokenInfo)
      {u v : host.World}
      → IsConsistent r
      → host.is_denom [] ≡ false
      → IsRegistered r i
      → IsSeparate r i
      → Reach r i u v
      → peg i v ≡ peg i u
  Reach-peg laws burns r i h strict hi sep here = refl
  Reach-peg laws burns r i h strict hi sep (next steps step) =
      Step-peg laws burns r i h strict hi sep step ∙ Reach-peg laws burns r i h strict hi sep steps
