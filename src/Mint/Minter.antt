-- ===== src/Mint/Minter.antt =====
-- The minter, its parameters and the provision of a block (x/mint/types/minter.go, and the minter
-- that x/mint/abci.go stores).
use composable_centauri.Base.{ℕ, ◌≡◌, Bool, false, if◌then◌else◌}
use composable_centauri.Base.Int.{ℤ}
use composable_centauri.Base.Word.{to_int64}
use composable_centauri.Base.Bytes.{Bytes}

-- sdk.Dec, with the order that the module relies on: a number is not below itself.
pub record Decimals : Type 1 where
  pub Decimal : Type 0
  pub one_dec : Decimal
  pub smallest_dec : Decimal
  pub new_dec : ℤ → Decimal
  pub add : Decimal → Decimal → Decimal
  pub sub : Decimal → Decimal → Decimal
  pub mul : Decimal → Decimal → Decimal
  pub quo : Decimal → Decimal → Decimal
  pub mul_int : Decimal → ℤ → Decimal
  pub quo_int : Decimal → ℤ → Decimal
  pub truncate_int : Decimal → ℤ
  -- LT, and GT with its arguments exchanged
  pub lt : Decimal → Decimal → Bool
  pub lt_self : (a : Decimal) → lt a a ≡ false

module _ ⦃decimals : Decimals⦄ where
  pub record Minter : Type 0 where
    pub inflation : decimals.Decimal
    pub annual_provisions : decimals.Decimal

  pub record Params : Type 0 where
    pub mint_denom : Bytes
    pub inflation_rate_change : decimals.Decimal
    pub goal_bonded : decimals.Decimal
    pub blocks_per_year : ℕ
    pub max_token_per_year : ℤ
    pub min_token_per_year : ℤ

  -- The last part of NextInflationRate.
  unfoldable pub clamp : decimals.Decimal → decimals.Decimal → decimals.Decimal → decimals.Decimal
  clamp inflation_min inflation_max inflation =
      let capped = if decimals.lt inflation_max inflation then inflation_max else inflation in
      if decimals.lt capped inflation_min then inflation_min else capped

  -- NextInflationRate
  unfoldable pub next_inflation_rate : Minter → Params → decimals.Decimal → ℤ → decimals.Decimal
  unfolding clamp to_int64
  next_inflation_rate m params bonded_ratio total_staking_supply =
      let supply = decimals.new_dec total_staking_supply in
      let change_per_year =
        decimals.mul (decimals.sub decimals.one_dec (decimals.quo bonded_ratio params.goal_bonded))
          params.inflation_rate_change in
      let change =
        decimals.quo change_per_year (decimals.new_dec (to_int64 params.blocks_per_year)) in
      if decimals.lt supply decimals.smallest_dec
      then m.inflation
      else clamp (decimals.quo (decimals.new_dec params.min_token_per_year) supply)
          (decimals.quo (decimals.new_dec params.max_token_per_year) supply)
          (decimals.add m.inflation change)

  -- NextAnnualProvisions
  unfoldable pub next_annual_provisions : Minter → ℤ → decimals.Decimal
  next_annual_provisions m total_supply = decimals.mul_int m.inflation total_supply

  -- The amount of BlockProvision
  unfoldable pub block_provision : Minter → Params → ℤ
  unfolding to_int64
  block_provision m params =
      decimals.truncate_int (decimals.quo_int m.annual_provisions (to_int64 params.blocks_per_year))

  -- The minter that BeginBlocker stores.
  unfoldable pub next_minter : Minter → Params → decimals.Decimal → ℤ → Minter
  unfolding next_inflation_rate next_annual_provisions
  next_minter m params bonded_ratio total_staking_supply =
      let inflation = next_inflation_rate m params bonded_ratio total_staking_supply in
      record {
        inflation = inflation;
        annual_provisions =
            next_annual_provisions (record m { inflation = inflation }) total_staking_supply;
      }
