-- ===== src/Mint/Payment.antt =====
-- What a block of x/mint pays (x/mint/abci.go): the provision comes from the module's own account.
use composable_centauri.Base.{◌≡◌, ◌≢◌, ap, sym, ◌∙◌, inl, inr, some, arith}
use composable_centauri.Base.Exec.{Result, ok, err, Exec-cases, Result-cases}
use composable_centauri.Kv.{Kv}
use composable_centauri.Fees.Config.{Coin}
use composable_centauri.Fees.Transfer.{new_coins}
use composable_centauri.Mint.Minter.{Decimals, Minter, next_minter, block_provision}
use composable_centauri.Mint.Params.{Chain, Error, module_name, new_coin, panicked}
use composable_centauri.Mint.Keeper.{
  State, get_params, get_minter, begin_blocker, distribute, add_collected_fees, set_minter,
}

module _ ⦃decimals : Decimals⦄ ⦃chain : Chain⦄ ⦃kv : Kv⦄ where
  -- The minter that a block leaves.
  abbrev pub renewed : Minter → State → Minter
  renewed m s =
      next_minter m (get_params s) (chain.bonded_ratio s.world) (chain.staking_token_supply s.world)

  -- From the bank before the block, the fee collector got the coins from the module, or the bank
  -- refused with an error; the minter is the renewed one, and the rest of the keeper is as it was.
  pub record IsPaid (m : Minter) (coin : Coin) (s t : State) : Type 0 where
    pub result : Result Error (Unit {0})
    pub sent :
        chain.send_coins_from_module_to_module module_name chain.fee_collector_name
          (new_coins coin)
          s.world
        ≡ (result, t.world)
    pub not_panicked : result ≢ err panicked
    pub kept : t ≡ record s { minter = some (renewed m s); world = t.world }

  paid :
      (m : Minter) {s t : State} (coin : Coin) (r : Result Error (Unit {0})) (w : chain.World)
      → chain.send_coins_from_module_to_module module_name chain.fee_collector_name
          (new_coins coin)
          s.world
        ≡ (r, w)
      → r ≢ err panicked
      → record s { minter = some (renewed m s); world = w } ≡ t
      → IsPaid m coin s t
  paid m {s} coin r w sent calm same = record {
    result = r;
    sent = sent ∙ ap (λ u. (r, u.world)) same;
    not_panicked = calm;
    kept = sym same ∙ ap (λ u. record s { minter = some (renewed m s); world = u.world }) same;
  }

  -- A block that does not panic stores the next minter and changes nothing else of the keeper; the
  -- one call of the bank is the payment of the block's provision from the module's account to the fee
  -- collector, made or refused, so that no coin is minted.
  pub begin_blocker-IsPaid :
      (m : Minter) (s t : State)
      → s.minter ≡ some m
      → begin_blocker s ≡ (ok tt, t)
      → (coin : Coin) × (new_coin
            (get_params s).mint_denom
            (block_provision (renewed m s) (get_params s))
          ≡ ok coin)
        × IsPaid m coin s t
  unfolding begin_blocker get_minter distribute set_minter add_collected_fees
  begin_blocker-IsPaid m s t stored e =
      elim (Result-cases
        (new_coin (get_params s).mint_denom (block_provision (renewed m s) (get_params s)))) [
          | inr (x, bad) ↦ absurd (ground arith)
          | inl (coin, made) ↦
              elim (Exec-cases (
                chain.send_coins_from_module_to_module module_name chain.fee_collector_name
                  (new_coins coin) s.world)) [
                    | inl (_, w, sent) ↦ (
                      coin,
                      made,
                      paid m coin (ok tt) w sent (λ p. absurd (ground arith)) (ground arith),
                    )
                    | inr (panicked, w, failed) ↦ absurd (ground arith)
                    | inr (x, w, failed) ↦ (
                      coin,
                      made,
                      paid m coin (err x) w failed (λ p. absurd (ground arith)) (ground arith),
                    )
                  ]
        ]
