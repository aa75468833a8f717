-- ===== src/TransferMiddleware/Exchange.antt =====
-- What the relay does to the bank's books: it refines an exchange, in which the voucher of a bridged
-- token goes to the escrow account and as much of the native token is issued to its holder.
pub mod Receive
pub mod Refund
pub mod Release
pub mod Peg
use composable_centauri.Base.{
  Bool, ◌≡◌, refl, sym, ap, ◌∙◌, subst, ◌≢◌, ◌⊎◌, inl, inr, true, false, ◌&&◌, if◌then◌else◌, some,
  none, [], arith, Bool-cases, Option-cases,
}
use composable_centauri.Base.Int.{ℤ}
use composable_centauri.Base.Bytes.{Bytes, eq_bytes, eq_bytes_iff}
use composable_centauri.Base.Exec.{ok, err, Exec-cases, Result-cases, lift, pure, ◌>>=◌}
use composable_centauri.Kv.{Kv}
use composable_centauri.Sdk.{Sdk, DenomTrace, Packet, FungibleTokenPacketData}
use composable_centauri.Fees.Config.{Coin}
use composable_centauri.Fees.Transfer.{new_coins}
use composable_centauri.TransferMiddleware.Registry.{Registry, ParachainIbcTokenInfo}
use composable_centauri.TransferMiddleware.Keeper.{
  get_parachain_ibc_token_info_by_asset_id, get_native_denom_by_ibc_denom_secondary_index,
}
use composable_centauri.TransferMiddleware.Consistency.{IsConsistent}
use composable_centauri.TransferMiddleware.Host.{
  Host, Failure, new_coin, new_coin-ok, new_coin-is_denom,
}
use composable_centauri.TransferMiddleware.Ledger.{
  Change, Changes, BankLaws, move, issue, no_change, ◌and_then◌, Changes-and_then, after_no_change,
  issue-move, no_change-Changes,
}
use composable_centauri.TransferMiddleware.Relay.{
  module_name, lock_and_mint, lock_and_refund, or_panic, keep_denom_trace, received_trace,
  on_recv_packet, refund_token, Call,
}

-- The abstract exchange.
abbrev pub exchange : Bytes → Bytes → Coin → Coin → Change
exchange holder escrow_address voucher native =
    move holder escrow_address voucher and_then issue holder native

module _ ⦃host : Host⦄ where
  or_panic-returned :
      (call : Call (Unit {0})) (w w' : host.World)
      → or_panic call w ≡ (ok tt, w')
      → call w ≡ (ok tt, w')
  or_panic-returned call w w' e = ground arith

  -- Minting and paying out, once the voucher is moved.
  issued_to :
      (laws : BankLaws) (holder : Bytes) (native : Coin) (u v w : host.World)
      → host.mint_coins module_name (new_coins native) u ≡ (ok tt, v)
      → host.send_coins_from_module_to_account module_name holder (new_coins native) v ≡ (ok tt, w)
      → Changes u w (issue holder native)
  issued_to laws holder native u v w minted sent =
      let name : Bytes = host.get_module_address module_name in
      issue-move u w name holder native (
        Changes-and_then u v w _ _ (laws.mint_coins-issues module_name native u v minted)
          (laws.send_coins_from_module_to_account-moves module_name holder native v w sent))

  pub lock_and_mint-exchanges :
      (laws : BankLaws) (holder escrow_address : Bytes) (voucher : Coin) (denom : Bytes)
      (amount : ℤ) (w w' : host.World)
      → lock_and_mint holder escrow_address voucher denom amount w ≡ (ok tt, w')
      → Changes w w'
          (exchange holder escrow_address voucher (record { denom = denom; amount = amount }))
  unfolding lock_and_mint
  lock_and_mint-exchanges laws holder escrow_address voucher denom amount w w' e =
      elim (Exec-cases (host.send_coins holder escrow_address (new_coins voucher) w)) [
        | inr (x, u, failed) ↦ absurd (ground arith)
        | inl (_, u, locked) ↦ elim (Result-cases (new_coin denom amount)) [
          | inr (x, bad) ↦ absurd (ground arith)
          | inl (native, made) ↦
              elim (Exec-cases (host.mint_coins module_name (new_coins native) u)) [
                | inr (x, v, failed) ↦ absurd (ground arith)
                | inl (_, v, minted) ↦
                    let sent : host.send_coins_from_module_to_account module_name holder
                          (new_coins native) v
                        ≡ (ok tt, w') =
                      ground arith in
                    subst (λ coin. Changes w w' (exchange holder escrow_address voucher coin))
                      (new_coin-ok denom amount native made)
                      (Changes-and_then w u w' _ _
                        (laws.send_coins-moves holder escrow_address voucher w u locked)
                        (issued_to laws holder native u v w' minted sent))
              ]
        ]
      ]

  pub lock_and_mint-is_denom :
      (holder escrow_address : Bytes) (voucher : Coin) (denom : Bytes) (amount : ℤ)
      (w w' : host.World)
      → lock_and_mint holder escrow_address voucher denom amount w ≡ (ok tt, w')
      → host.is_denom denom ≡ true
  unfolding lock_and_mint
  lock_and_mint-is_denom holder escrow_address voucher denom amount w w' e =
      elim (Exec-cases (host.send_coins holder escrow_address (new_coins voucher) w)) [
        | inr (x, u, failed) ↦ absurd (ground arith)
        | inl (_, u, locked) ↦ elim (Result-cases (new_coin denom amount)) [
          | inr (x, bad) ↦ absurd (ground arith)
          | inl (native, made) ↦ new_coin-is_denom denom amount native made
        ]
      ]

  pub lock_and_refund-exchanges :
      (laws : BankLaws) (holder escrow_address : Bytes) (voucher : Coin) (denom : Bytes)
      (amount : ℤ) (w w' : host.World)
      → lock_and_refund holder escrow_address voucher denom amount w ≡ (ok tt, w')
      → Changes w w'
          (exchange holder escrow_address voucher (record { denom = denom; amount = amount }))
  unfolding lock_and_refund
  lock_and_refund-exchanges laws holder escrow_address voucher denom amount w w' e =
      elim (Result-cases (new_coin denom amount)) [
        | inr (x, bad) ↦ absurd (ground arith)
        | inl (native, made) ↦
            elim (Exec-cases (host.send_coins holder escrow_address (new_coins voucher) w)) [
              | inr (x, u, failed) ↦ absurd (ground arith)
              | inl (_, u, locked) ↦
                  elim (Exec-cases (host.mint_coins module_name (new_coins native) u)) [
                    | inr (x, v, failed) ↦ absurd (ground arith)
                    | inl (_, v, minted) ↦
                        let sent : or_panic
                              (host.send_coins_from_module_to_account module_name holder
                                (new_coins native))
                              v
                            ≡ (ok tt, w') =
                          ground arith in
                        subst (λ coin. Changes w w' (exchange holder escrow_address voucher coin))
                          (new_coin-ok denom amount native made)
                          (Changes-and_then w u w' _ _
                            (laws.send_coins-moves holder escrow_address voucher w u locked)
                            (issued_to laws holder native u v w' minted (
                              or_panic-returned
                                (host.send_coins_from_module_to_account module_name holder
                                  (new_coins native))
                                v w' sent)))
                  ]
            ]
      ]

  pub keep_denom_trace-Changes :
      (laws : BankLaws) (trace : DenomTrace) (w : host.World)
      → Changes w (keep_denom_trace trace w) no_change
  unfolding keep_denom_trace
  keep_denom_trace-Changes laws trace w =
      elim (Bool-cases (host.has_denom_trace (host.trace_hash trace) w)) [
        | inl stored ↦ rw (keep_denom_trace, stored) (no_change-Changes w)
        | inr missing ↦ rw (keep_denom_trace, missing) (laws.set_denom_trace-keeps trace w)
      ]

  pub lock_and_refund-is_denom :
      (holder escrow_address : Bytes) (voucher : Coin) (denom : Bytes) (amount : ℤ)
      (w w' : host.World)
      → lock_and_refund holder escrow_address voucher denom amount w ≡ (ok tt, w')
      → host.is_denom denom ≡ true
  unfolding lock_and_refund
  lock_and_refund-is_denom holder escrow_address voucher denom amount w w' e =
      elim (Result-cases (new_coin denom amount)) [
        | inr (x, bad) ↦ absurd (ground arith)
        | inl (native, made) ↦ new_coin-is_denom denom amount native made
      ]
