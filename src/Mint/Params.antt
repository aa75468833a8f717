-- ===== src/Mint/Params.antt =====
-- The parameters of x/mint and the checks of its messages and genesis (x/mint/types/params.go,
-- minter.go, genesis.go, msg.go and msgs.go), over the libraries as parameters.
use composable_centauri.Base.{
  ℕ, ◌*◌, ◌/◌, Bool, not, ◌||◌, Option, none, some, List, [], if◌then◌else◌, ◌==◌,
}
use composable_centauri.Base.Int.{ℤ, pos, ltb_ℤ}
use composable_centauri.Base.Bytes.{Bytes, bytes, eq_bytes}
use composable_centauri.Base.Exec.{Result, ok, err, Exec}
use composable_centauri.Fees.Config.{Coin}
use composable_centauri.Mint.Minter.{Decimals, Minter, Params}

pub data Error : Type 0 where
  invalid_signer invalid_address invalid_coin : Error
  -- What Params.Validate and ValidateMinter refuse.
  blank_denom invalid_denom negative_change change_too_large goal_not_positive goal_too_large :
      Error
  no_blocks_per_year max_below_min negative_inflation : Error
  -- An error of the bank.
  from_below : Error
  panicked : Error

-- types.ModuleName
abbrev pub module_name : Bytes
module_name = bytes "mint"

module _ ⦃decimals : Decimals⦄ where
  -- The libraries that the keeper calls: sdk.Dec, the staking module, the accounts and the bank.
  pub record Chain : Type 1 where
    pub World : Type 0
    -- The zero value of sdk.Dec, and IsNegative and IsZero
    pub nil_dec : decimals.Decimal
    pub is_negative : decimals.Decimal → Bool
    pub is_zero_dec : decimals.Decimal → Bool
    pub new_dec_with_prec : ℤ → ℕ → decimals.Decimal
    pub default_bond_denom : Bytes
    -- sdk.ValidateDenom, true where it returns no error, and strings.TrimSpace
    pub is_denom : Bytes → Bool
    pub trim_space : Bytes → Bytes
    pub acc_address_from_bech32 : Bytes → Option Bytes
    pub staking_token_supply : World → ℤ
    pub bonded_ratio : World → decimals.Decimal
    -- GetModuleAccount, which makes the account where it is missing: its address
    pub get_module_account : Bytes → World → Bytes × World
    pub get_module_address : Bytes → Bytes
    pub get_balance : Bytes → Bytes → World → ℤ
    pub mint_coins : Bytes → List Coin → Exec Error World (Unit {0})
    pub send_coins : Bytes → Bytes → List Coin → Exec Error World (Unit {0})
    pub send_coins_from_module_to_module : Bytes → Bytes → List Coin → Exec Error World (Unit {0})
    pub fee_collector_name : Bytes

  module _ ⦃chain : Chain⦄ where
    -- The parameters that a read leaves where none are stored.
    abbrev pub no_params : Params
    no_params = record {
      mint_denom = [];
      inflation_rate_change = chain.nil_dec;
      goal_bonded = chain.nil_dec;
      blocks_per_year = 0;
      max_token_per_year = pos 0;
      min_token_per_year = pos 0;
    }

    -- DefaultParams
    unfoldable pub default_params : Params
    default_params = record {
      mint_denom = chain.default_bond_denom;
      inflation_rate_change = chain.new_dec_with_prec (pos 13) 2;
      goal_bonded = chain.new_dec_with_prec (pos 67) 2;
      blocks_per_year = 60 * 60 * 8766 / 5;
      max_token_per_year = pos 1000000000000000;
      min_token_per_year = pos 800000000000000;
    }

    -- validateMintDenom
    unfoldable pub validate_mint_denom : Bytes → Result Error (Unit {0})
    validate_mint_denom v =
        if eq_bytes (chain.trim_space v) []
        then err blank_denom
        else if chain.is_denom v
        then ok tt
        else err invalid_denom

    -- validateInflationRateChange
    unfoldable pub validate_inflation_rate_change : decimals.Decimal → Result Error (Unit {0})
    validate_inflation_rate_change v =
        if chain.is_negative v
        then err negative_change
        else if decimals.lt decimals.one_dec v
        then err change_too_large
        else ok tt

    -- validateGoalBonded
    unfoldable pub validate_goal_bonded : decimals.Decimal → Result Error (Unit {0})
    validate_goal_bonded v =
        if chain.is_negative v || chain.is_zero_dec v
        then err goal_not_positive
        else if decimals.lt decimals.one_dec v
        then err goal_too_large
        else ok tt

    -- validateBlocksPerYear
    unfoldable pub validate_blocks_per_year : ℕ → Result Error (Unit {0})
    validate_blocks_per_year v = if v == 0 then err no_blocks_per_year else ok tt

    -- Params.Validate
    unfoldable pub validate : Params → Result Error (Unit {0})
    unfolding validate_mint_denom validate_inflation_rate_change validate_goal_bonded
        validate_blocks_per_year
    validate p = elim (validate_mint_denom p.mint_denom) [
      | err e ↦ err e
      | ok _ ↦ elim (validate_inflation_rate_change p.inflation_rate_change) [
        | err e ↦ err e
        | ok _ ↦ elim (validate_goal_bonded p.goal_bonded) [
          | err e ↦ err e
          | ok _ ↦ elim (validate_blocks_per_year p.blocks_per_year) [
            | err e ↦ err e
            | ok _ ↦
                if ltb_ℤ p.max_token_per_year p.min_token_per_year then err max_below_min else ok tt
          ]
        ]
      ]
    ]

    -- ValidateMinter
    unfoldable pub validate_minter : Minter → Result Error (Unit {0})
    validate_minter minter =
        if chain.is_negative minter.inflation then err negative_inflation else ok tt

    -- The coin of a denom and an amount, of which NewCoin panics at a bad denom or a negative amount.
    unfoldable pub new_coin : Bytes → ℤ → Result Error Coin
    new_coin denom amount =
        if not (chain.is_denom denom) || ltb_ℤ amount (pos 0)
        then err panicked
        else ok (record { denom = denom; amount = amount })

    -- ValidateGenesis
    unfoldable pub validate_genesis : Minter → Params → Result Error (Unit {0})
    unfolding validate validate_minter
    validate_genesis minter params = elim (validate params) [
      | err e ↦ err e
      | ok _ ↦ validate_minter minter
    ]

    -- MsgFundModuleAccount.ValidateBasic
    unfoldable pub validate_fund_module_account : Bytes → Result Error (Unit {0})
    validate_fund_module_account from_address = elim (chain.acc_address_from_bech32 from_address) [
      | none ↦ err invalid_address
      | some a ↦ ok tt
    ]

    -- MsgAddAccountToFundModuleSet.ValidateBasic
    unfoldable pub validate_add_account : Bytes → Bytes → Result Error (Unit {0})
    validate_add_account authority allowed_address =
        elim (chain.acc_address_from_bech32 authority) [
          | none ↦ err invalid_signer
          | some a ↦ elim (chain.acc_address_from_bech32 allowed_address) [
            | none ↦ err invalid_address
            | some b ↦ ok tt
          ]
        ]

    -- MsgUpdateParams.ValidateBasic
    unfoldable pub validate_update_params : Bytes → Params → Result Error (Unit {0})
    unfolding validate
    validate_update_params authority params = elim (chain.acc_address_from_bech32 authority) [
      | none ↦ err invalid_signer
      | some a ↦ validate params
    ]
