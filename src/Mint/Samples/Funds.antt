-- ===== src/Mint/Samples/Funds.antt =====
-- A genesis, a request, a funding and a block.
use composable_centauri.Base.{ℕ, suc, ◌≡◌, refl, true, some, none, [], ◌∷◌}
use composable_centauri.Base.Int.{pos, ltb_ℤ, is_zero, quo, ◌+ℤ◌, ◌-ℤ◌, ◌*ℤ◌}
use composable_centauri.Base.Bytes.{Bytes, bytes, eq_bytes}
use composable_centauri.Base.Exec.{ok}
use composable_centauri.Kv.{lookup}
use composable_centauri.Kv.Assoc
use composable_centauri.Kv.Assoc.{assoc_kv, no_entries}
use composable_centauri.Fees.Config.{Coin}
use composable_centauri.Fees.Transfer.{quo_raw}
use composable_centauri.Mint.Minter.{block_provision}
use composable_centauri.Mint.Params.{
  Chain, validate, validate_mint_denom, validate_inflation_rate_change, validate_goal_bonded,
  validate_blocks_per_year, module_name, new_coin,
}
use composable_centauri.Mint.Keeper.{
  State, get_params, set_params, init_genesis, set_minter, mint_coins,
  get_module_account_acc_address, fund_module_account, add_account_to_fund_module_set,
  set_allowed_address, is_allowed_address, check_fund, begin_blocker,
}
use composable_centauri.Mint.Reach.{
  IsReady, Reach-IsReady, here, next, funds, allows, blocks, fund_module_account-allowed,
}
use composable_centauri.Mint.Payment.{IsPaid, renewed, begin_blocker-IsPaid}
use composable_centauri.Mint.Samples.{two_places, sample_minter, sample_params}

-- The world counts the payments.
instance abbrev sample_chain : Chain
sample_chain = record {
  World = ℕ;
  nil_dec = pos 0;
  is_negative = λ d. ltb_ℤ d (pos 0);
  is_zero_dec = is_zero;
  new_dec_with_prec = λ n places. n;
  default_bond_denom = bytes "stake";
  is_denom = λ d. true;
  trim_space = λ d. d;
  acc_address_from_bech32 = λ b. some b;
  staking_token_supply = λ w. pos 10000;
  bonded_ratio = λ w. pos 50;
  get_module_account = λ name w. (name, w);
  get_module_address = λ name. name;
  get_balance = λ address denom w. pos 0;
  mint_coins = λ name coins w. (ok tt, suc w);
  send_coins = λ from to coins w. (ok tt, suc w);
  send_coins_from_module_to_module = λ from to coins w. (ok tt, suc w);
  fee_collector_name = bytes "fees";
}

abbrev sample_state : State
sample_state = record {
  authority = bytes "gov";
  minter = none;
  params = none;
  allowed_addresses = assoc_kv.empty;
  world = 0;
}

abbrev some_coin : Coin
some_coin = record { denom = bytes "ppica"; amount = pos 50 }

abbrev started : State
started = (init_genesis sample_minter sample_params some_coin sample_state).1

starts : init_genesis sample_minter sample_params some_coin sample_state ≡ (ok tt, started)
unfolding init_genesis set_minter set_params validate validate_mint_denom
    validate_inflation_rate_change validate_goal_bonded validate_blocks_per_year mint_coins
    get_module_account_acc_address eq_bytes
starts = refl

abbrev allowing : State
allowing = (add_account_to_fund_module_set (bytes "gov") (bytes "dao") started).1

abbrev funded : State
funded = (fund_module_account (bytes "dao") (some_coin ∷ []) allowing).1

Reach-IsReady_example : IsReady (begin_blocker funded).1
Reach-IsReady_example = Reach-IsReady sample_minter sample_params some_coin sample_state starts (
    next
      (next (next here (allows (bytes "gov") (bytes "dao"))) (funds (bytes "dao") (some_coin ∷ [])))
      blocks)

fund_module_account-allowed_example :
    (is_allowed_address (bytes "dao") allowing ≡ true)
    × ((sender : Bytes) × (coin : Coin) × (sample_chain.acc_address_from_bech32 (bytes "dao")
          ≡ some sender)
        × ((some_coin ∷ []) ≡ coin ∷ [])
        × (coin.denom ≡ (get_params allowing).mint_denom)
        × (let (address, w) = sample_chain.get_module_account module_name allowing.world in
            sample_chain.send_coins sender address (some_coin ∷ []) w ≡ (ok tt, funded.world)))
    × (funded ≡ record allowing { world = funded.world })
unfolding fund_module_account is_allowed_address check_fund get_params init_genesis set_minter
    set_params validate validate_mint_denom validate_inflation_rate_change validate_goal_bonded
    validate_blocks_per_year mint_coins get_module_account_acc_address eq_bytes
    add_account_to_fund_module_set set_allowed_address Assoc.get Assoc.set no_entries lookup
fund_module_account-allowed_example =
    fund_module_account-allowed (bytes "dao") (some_coin ∷ []) allowing funded refl

begin_blocker-IsPaid_example :
    (coin : Coin) × (new_coin
        (get_params funded).mint_denom
        (block_provision (renewed sample_minter funded) (get_params funded))
      ≡ ok coin)
    × IsPaid sample_minter coin funded (begin_blocker funded).1
unfolding fund_module_account is_allowed_address check_fund get_params init_genesis set_minter
    set_params validate validate_mint_denom validate_inflation_rate_change validate_goal_bonded
    validate_blocks_per_year mint_coins get_module_account_acc_address eq_bytes
    add_account_to_fund_module_set set_allowed_address Assoc.get Assoc.set no_entries lookup
    begin_blocker quo quo_raw ◌*ℤ◌ ◌+ℤ◌ ◌-ℤ◌
begin_blocker-IsPaid_example =
    begin_blocker-IsPaid sample_minter funded (begin_blocker funded).1 refl refl
