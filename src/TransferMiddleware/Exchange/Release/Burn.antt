-- ===== src/TransferMiddleware/Exchange/Release/Burn.antt =====
-- The burning and the release of a packet that the bridge sends (handleOverrideSendPacketTransferLogic
-- of x/transfermiddleware/keeper/ics4wrapper.go), on the bank's books.
use composable_centauri.Base.{◌≡◌, ◌⊎◌, inl, inr, arith}
use composable_centauri.Base.Bytes.{Bytes}
use composable_centauri.Base.Exec.{ok, err, Exec-cases}
use composable_centauri.Fees.Config.{Coin}
use composable_centauri.Fees.Transfer.{new_coins}
use composable_centauri.TransferMiddleware.Host.{Host, Failure, panicked}
use composable_centauri.TransferMiddleware.Ledger.{
  Change, Changes, destroy, move-destroy, before_no_change, BankLaws, move, ◌and_then◌,
  Changes-and_then,
}
use composable_centauri.TransferMiddleware.Relay.{Call}
use composable_centauri.TransferMiddleware.Ics4Wrapper.{ignoring_error, burn_and_release}

-- The abstract release: the exchange undone.
abbrev pub release : Bytes → Bytes → Coin → Coin → Change
release holder escrow_address voucher native =
    destroy escrow_address native and_then move escrow_address holder voucher

-- What is released where the bank refuses to burn.
abbrev pub unburnt_release : Bytes → Bytes → Bytes → Coin → Coin → Change
unburnt_release keeper holder escrow_address voucher native =
    move escrow_address keeper native and_then move escrow_address holder voucher

module _ ⦃host : Host⦄ where
  -- The native token was taken from the escrow account, and the call to burn it succeeded.
  pub record IsBurnt (escrow_address : Bytes) (native : Coin) (w v : host.World) : Type 0 where
    pub holding : host.World
    pub taken :
        host.send_coins_from_account_to_module escrow_address host.transfer_module
          (new_coins native)
          w
        ≡ (ok tt, holding)
    pub burnt : host.burn_coins host.transfer_module (new_coins native) holding ≡ (ok tt, v)

  -- The native token was taken from the escrow account, and the call to burn it failed.
  pub record IsRefused (escrow_address : Bytes) (native : Coin) (w v : host.World) : Type 0 where
    pub holding : host.World
    pub taken :
        host.send_coins_from_account_to_module escrow_address host.transfer_module
          (new_coins native)
          w
        ≡ (ok tt, holding)
    pub failure : Failure
    pub refused : host.burn_coins host.transfer_module (new_coins native) holding ≡ (err failure, v)

  -- The burning was tried; the books changed by the one release where it succeeded, and by the other
  -- where the bank refused; and the voucher was sent after it.
  abbrev pub IsReleased : Bytes → Bytes → Coin → Coin → host.World → host.World → Type 0
  IsReleased holder escrow_address voucher native w u =
      (v : host.World) × ((IsBurnt escrow_address native w v
          × Changes w u (release holder escrow_address voucher native))
        ⊎ (IsRefused escrow_address native w v
            × Changes w u (
                unburnt_release (host.get_module_address host.transfer_module) holder escrow_address
                  voucher native)))
      × (host.send_coins escrow_address holder (new_coins voucher) v ≡ (ok tt, u))

  ignored-cases :
      (call : Call (Unit {0})) (v u : host.World)
      → ignoring_error call v ≡ (ok tt, u)
      → (call v ≡ (ok tt, u)) ⊎ ((e : Failure) × (call v ≡ (err e, u)))
  ignored-cases call v u e = elim (Exec-cases (call v)) [
    | inl (_, t, burnt) ↦ inl ground arith
    | inr (panicked, t, failed) ↦ absurd (ground arith)
    | inr (x, t, failed) ↦ inr (x, ground arith)
  ]

  pub burn_and_release-IsReleased :
      (laws : BankLaws) (holder escrow_address : Bytes) (native voucher : Coin) (w u : host.World)
      → burn_and_release holder escrow_address native voucher w ≡ (ok tt, u)
      → IsReleased holder escrow_address voucher native w u
  unfolding burn_and_release
  burn_and_release-IsReleased laws holder escrow_address native voucher w u e =
      let keeper : Bytes = host.get_module_address host.transfer_module in
      elim (Exec-cases (
        host.send_coins_from_account_to_module escrow_address host.transfer_module
          (new_coins native) w)) [
            | inr (x, t, failed) ↦ absurd (ground arith)
            | inl (_, t, taken) ↦
                elim (Exec-cases
                  (ignoring_error (host.burn_coins host.transfer_module (new_coins native)) t)) [
                    | inr (x, v, failed) ↦ absurd (ground arith)
                    | inl (_, v, tried) ↦
                        let sent : host.send_coins escrow_address holder (new_coins voucher) v
                            ≡ (ok tt, u) =
                          ground arith in
                        let paid_out : Changes v u (move escrow_address holder voucher) =
                          laws.send_coins-moves escrow_address holder voucher v u sent in
                        let received : Changes w t (move escrow_address keeper native) =
                          laws.send_coins_from_account_to_module-moves escrow_address
                            host.transfer_module native w t taken in
                        elim (ignored-cases
                          (host.burn_coins host.transfer_module (new_coins native)) t v tried) [
                            | inl burnt ↦ (
                              v,
                              inl (
                                record { holding = t; taken = taken; burnt = burnt },
                                Changes-and_then w v u _ _
                                    (move-destroy w v escrow_address keeper native (
                                      Changes-and_then w t v _ _ received (
                                        laws.burn_coins-destroys host.transfer_module native t v
                                          burnt)))
                                    paid_out,
                              ),
                              sent,
                            )
                            | inr (x, refused) ↦ (
                              v,
                              inr (
                                record {
                                  holding = t;
                                  taken = taken;
                                  failure = x;
                                  refused = refused;
                                },
                                Changes-and_then w v u _ _
                                    (before_no_change w v _ (
                                      Changes-and_then w t v _ _ received (
                                        laws.burn_coins-refused host.transfer_module native x t v
                                          refused)))
                                    paid_out,
                              ),
                              sent,
                            )
                          ]
                  ]
          ]

  -- The bank burns what a module has just taken in.
  abbrev pub BurnsWhatIsTaken : Type 0
  BurnsWhatIsTaken =
      (from : Bytes) (coin : Coin) (w t : host.World)
      → host.send_coins_from_account_to_module from host.transfer_module (new_coins coin) w
        ≡ (ok tt, t)
      → (v : host.World) × (host.burn_coins host.transfer_module (new_coins coin) t ≡ (ok tt, v))

  pub burn_and_release-burnt :
      (laws : BankLaws) (burns : BurnsWhatIsTaken) (holder escrow_address : Bytes)
      (native voucher : Coin) (w u : host.World)
      → burn_and_release holder escrow_address native voucher w ≡ (ok tt, u)
      → Changes w u (release holder escrow_address voucher native)
  unfolding burn_and_release
  burn_and_release-burnt laws burns holder escrow_address native voucher w u e =
      elim (Exec-cases (
        host.send_coins_from_account_to_module escrow_address host.transfer_module
          (new_coins native) w)) [
            | inr (x, t, failed) ↦ absurd (ground arith)
            | inl (_, t, taken) ↦
                let (v, burnt) = burns escrow_address native w t taken in
                let sent : host.send_coins escrow_address holder (new_coins voucher) v
                    ≡ (ok tt, u) =
                  ground arith in
                Changes-and_then w v u _ _
                  (move-destroy w v escrow_address (host.get_module_address host.transfer_module)
                    native
                    (Changes-and_then w t v _ _
                      (laws.send_coins_from_account_to_module-moves escrow_address
                        host.transfer_module native w t taken)
                      (laws.burn_coins-destroys host.transfer_module native t v burnt)))
                  (laws.send_coins-moves escrow_address holder voucher v u sent)
          ]
