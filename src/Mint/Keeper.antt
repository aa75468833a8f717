-- ===== src/Mint/Keeper.antt =====
-- The keeper of x/mint, its messages, its begin blocker and its genesis (x/mint/keeper/keeper.go,
-- msg_server.go and genesis.go, and x/mint/abci.go).
use composable_centauri.Base.{ℕ, Bool, not, Option, none, some, List, [], ◌∷◌, if◌then◌else◌}
use composable_centauri.Base.Bytes.{Bytes, eq_bytes}
use composable_centauri.Base.Exec.{
  Result, ok, err, Exec, pure, gets, modify, raise, raise_if, lift, ◌>>=◌, ◌>>◌,
}
use composable_centauri.Kv.{Kv, has}
use composable_centauri.Fees.Config.{Coin}
use composable_centauri.Fees.Transfer.{new_coins}
use composable_centauri.Mint.Minter.{Decimals, Minter, Params, next_minter, block_provision}
use composable_centauri.Mint.Params.{
  Error, Chain, module_name, no_params, validate, new_coin, invalid_signer, invalid_address,
  invalid_coin, panicked,
}

module _ ⦃decimals : Decimals⦄ ⦃chain : Chain⦄ ⦃kv : Kv⦄ where
  -- What the keeper keeps: ParamsKey, MinterKey and the allowed addresses.
  pub record State : Type 0 where
    pub authority : Bytes
    pub minter : Option Minter
    pub params : Option Params
    pub allowed_addresses : kv.Store ℕ
    pub world : chain.World

  abbrev pub Action : Type 0 → Type 0
  Action A = Exec Error State A

  abbrev pub on_world : {A : Type 0} → Exec Error chain.World A → Action A
  on_world call s = let (r, w) = call s.world in (r, record s { world = w })

  -- GetMinter, which panics where there is none.
  unfoldable pub get_minter : Action Minter
  get_minter s = elim s.minter [ none ↦ (err panicked, s) | some m ↦ (ok m, s) ]

  -- SetMinter
  unfoldable pub set_minter : Minter → State → State
  set_minter m s = record s { minter = some m }

  -- SetAllowedAddress and IsAllowedAddress
  unfoldable pub set_allowed_address : Bytes → State → State
  set_allowed_address address s = record s {
    allowed_addresses = kv.set address 1 s.allowed_addresses;
  }

  unfoldable pub is_allowed_address : Bytes → State → Bool
  is_allowed_address address s = has address s.allowed_addresses

  -- SetParams
  unfoldable pub set_params : Params → Action (Unit {0})
  unfolding validate
  set_params p = do lift (validate p); modify λ s. record s { params = some p }

  -- GetParams
  unfoldable pub get_params : State → Params
  get_params s = elim s.params [ none ↦ no_params | some p ↦ p ]

  -- MintCoins, which skips nothing.
  unfoldable pub mint_coins : List Coin → Action (Unit {0})
  mint_coins [] s = (ok tt, s)
  mint_coins (coin ∷ coins) s = on_world (chain.mint_coins module_name (coin ∷ coins)) s

  -- AddCollectedFees
  unfoldable pub add_collected_fees : List Coin → Action (Unit {0})
  add_collected_fees fees =
      on_world (chain.send_coins_from_module_to_module module_name chain.fee_collector_name fees)

  -- An error that is logged, and not a panic.
  abbrev pub or_log : Action (Unit {0}) → Action (Unit {0})
  or_log call s =
      let (r, t) = call s in
      elim r [ ok _ ↦ (ok tt, t) | err panicked ↦ (err panicked, t) | err e ↦ (ok tt, t) ]

  -- BeginBlocker with DefaultInflationCalculationFn, once the minter is read.
  unfoldable pub distribute : Minter → Action (Unit {0})
  unfolding set_minter add_collected_fees new_coin next_minter block_provision get_params
  distribute minter = do
    params ← gets get_params
    new_minter ← gets (λ s.
        next_minter minter params (chain.bonded_ratio s.world) (chain.staking_token_supply s.world))
    modify (set_minter new_minter)
    minted_coin ← lift (new_coin params.mint_denom (block_provision new_minter params))
    or_log (add_collected_fees (new_coins minted_coin))

  -- BeginBlocker
  unfoldable pub begin_blocker : Action (Unit {0})
  unfolding get_minter distribute
  begin_blocker = get_minter >>= distribute

  -- UpdateParams
  unfoldable pub update_params : Bytes → Params → Action (Unit {0})
  unfolding set_params
  update_params authority params = do
    raise_if (← gets (λ s. not (eq_bytes s.authority authority))) invalid_signer
    set_params params

  -- The test of FundModuleAccount on the coins: `req.Amount[0]` panics where there are none.
  unfoldable pub check_fund : Bytes → List Coin → Result Error (Unit {0})
  check_fund mint_denom [] = err panicked
  check_fund mint_denom (coin ∷ []) =
      if eq_bytes coin.denom mint_denom then ok tt else err invalid_coin
  check_fund mint_denom (coin ∷ other ∷ coins) = err invalid_coin

  -- GetModuleAccountAccAddress
  unfoldable pub get_module_account_acc_address : Action Bytes
  get_module_account_acc_address s =
      let (address, w) = chain.get_module_account module_name s.world in
      (ok address, record s { world = w })

  -- FundModuleAccount
  unfoldable pub fund_module_account : Bytes → List Coin → Action (Unit {0})
  unfolding is_allowed_address check_fund get_module_account_acc_address get_params
  fund_module_account from_address amount = elim (chain.acc_address_from_bech32 from_address) [
    | none ↦ raise invalid_address
    | some sender ↦ do
      raise_if (← gets (λ s. not (is_allowed_address from_address s))) invalid_address
      params ← gets get_params
      lift (check_fund params.mint_denom amount)
      address ← get_module_account_acc_address
      on_world (chain.send_coins sender address amount)
  ]

  -- AddAccountToFundModuleSet
  unfoldable pub add_account_to_fund_module_set : Bytes → Bytes → Action (Unit {0})
  unfolding set_allowed_address
  add_account_to_fund_module_set authority allowed_address = do
    raise_if (← gets (λ s. not (eq_bytes s.authority authority))) invalid_signer
    modify (set_allowed_address allowed_address)

  -- InitGenesis, whose errors are panics.
  unfoldable pub init_genesis : Minter → Params → Coin → Action (Unit {0})
  unfolding set_minter set_params mint_coins get_module_account_acc_address
  init_genesis minter params incentives_supply = do
    modify (set_minter minter)
    set_params params
    mint_coins (new_coins incentives_supply)
    get_module_account_acc_address
    pure tt

  -- ExportGenesis: the minter, the parameters and what is left of the incentives.
  unfoldable pub export_genesis : Action (Minter × Params × Coin)
  unfolding get_minter get_params
  export_genesis = do
    minter ← get_minter
    params ← gets get_params
    remaining ←
        gets
          (λ s. chain.get_balance (chain.get_module_address module_name) params.mint_denom s.world)
    pure (minter, params, record { denom = params.mint_denom; amount = remaining })
