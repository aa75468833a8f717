-- ===== src/Mint/Bounds.antt =====
-- The inflation rate stays within the yearly amounts.
use composable_centauri.Base.{◌≡◌, false, arith}
use composable_centauri.Base.Int.{ℤ}
use composable_centauri.Mint.Minter.{
  Decimals, Minter, Params, clamp, next_inflation_rate, next_minter,
}

module _ ⦃decimals : Decimals⦄ where
  clamp_bounds :
      (low high inflation : decimals.Decimal)
      → decimals.lt high low ≡ false
      → (decimals.lt (clamp low high inflation) low ≡ false)
        × (decimals.lt high (clamp low high inflation) ≡ false)
  unfolding clamp
  clamp_bounds low high inflation ordered = (
    ground (arith, decimals.lt_self low, decimals.lt_self high),
    ground (arith, decimals.lt_self low, decimals.lt_self high),
  )

  -- In a block with a staking supply of at least the smallest decimal, and where the least yearly
  -- rate is not above the greatest, the inflation that is stored is neither below the least amount a
  -- year over the supply nor above the greatest, whatever the bonded ratio and the old inflation.
  pub next_minter_bounds :
      (m : Minter) (params : Params) (bonded_ratio : decimals.Decimal) (supply : ℤ)
      → decimals.lt (decimals.new_dec supply) decimals.smallest_dec ≡ false
      → let low =
          decimals.quo (decimals.new_dec params.min_token_per_year) (decimals.new_dec supply) in
        let high =
          decimals.quo (decimals.new_dec params.max_token_per_year) (decimals.new_dec supply) in
        decimals.lt high low ≡ false
        → let inflation = (next_minter m params bonded_ratio supply).inflation in
          (decimals.lt inflation low ≡ false) × (decimals.lt high inflation ≡ false)
  unfolding next_minter next_inflation_rate
  next_minter_bounds m params bonded_ratio supply staked ordered =
      rw staked (clamp_bounds _ _ _ ordered)
