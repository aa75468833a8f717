-- ===== src/Mint/Reach.antt =====
-- What holds of the keeper of x/mint whatever comes, and who may fund the module.
use composable_centauri.Base.{
  true, ◌≡◌, refl, ap, sym, ◌∙◌, inl, inr, some, List, [], ◌∷◌, arith, Bool-cases, Option-cases,
}
use composable_centauri.Base.Bytes.{Bytes, eq_bytes, eq_bytes_iff}
use composable_centauri.Base.Exec.{ok, Exec-cases, Result-cases}
use composable_centauri.Kv.{Kv}
use composable_centauri.Fees.Config.{Coin}
use composable_centauri.Mint.Minter.{Decimals, Minter, Params, next_minter}
use composable_centauri.Mint.Params.{Chain, module_name, validate}
use composable_centauri.Mint.Keeper.{
  State, get_params, get_minter, set_params, update_params, begin_blocker, distribute,
  fund_module_account, check_fund, add_account_to_fund_module_set, init_genesis, is_allowed_address,
  set_allowed_address, mint_coins, get_module_account_acc_address, add_collected_fees, set_minter,
}

module _ ⦃decimals : Decimals⦄ ⦃chain : Chain⦄ ⦃kv : Kv⦄ where
  -- The minter and valid parameters are stored.
  pub record IsReady (s : State) : Type 0 where
    pub minter_stored : (m : Minter) × (s.minter ≡ some m)
    pub params_valid : (p : Params) × (s.params ≡ some p) × (validate p ≡ ok tt)

  set_params-keeps : (p : Params) (s : State) → IsReady s → IsReady (set_params p s).1
  unfolding set_params
  set_params-keeps p s h = elim (Result-cases (validate p)) [
    | inl (tt, valid) ↦
        rw (set_params, valid)
          (record { minter_stored = h.minter_stored; params_valid = (p, refl, valid) })
    | inr (e, bad) ↦ rw (set_params, bad) h
  ]

  update_params-keeps :
      (authority : Bytes) (p : Params) (s : State)
      → IsReady s
      → IsReady (update_params authority p s).1
  unfolding update_params
  update_params-keeps authority p s h = elim (Bool-cases (eq_bytes s.authority authority)) [
    | inl same ↦ rw (update_params, same) (set_params-keeps p s h)
    | inr other ↦ rw (update_params, other) h
  ]

  -- What decides whether a state is ready.
  same-IsReady : (s t : State) → t.params ≡ s.params → t.minter ≡ s.minter → IsReady s → IsReady t
  same-IsReady s t e f h = record {
    minter_stored = rw f h.minter_stored;
    params_valid = rw e h.params_valid;
  }

  add_account-keeps :
      (authority address : Bytes) (s : State)
      → IsReady s
      → IsReady (add_account_to_fund_module_set authority address s).1
  unfolding add_account_to_fund_module_set set_allowed_address
  add_account-keeps authority address s h = same-IsReady s _ (ground arith) (ground arith) h

  fund_module_account-keeps :
      (from : Bytes) (amount : List Coin) (s : State)
      → IsReady s
      → IsReady (fund_module_account from amount s).1
  unfolding fund_module_account get_module_account_acc_address
  fund_module_account-keeps from amount s h = same-IsReady s _ (ground arith) (ground arith) h

  begin_blocker-params : (s : State) → (begin_blocker s).1.params ≡ s.params
  unfolding begin_blocker get_minter distribute set_minter add_collected_fees
  begin_blocker-params s = ground arith

  begin_blocker-minter :
      (s : State) (m : Minter)
      → s.minter ≡ some m
      → (begin_blocker s).1.minter
        ≡ some (
            next_minter m
              (get_params s)
              (chain.bonded_ratio s.world)
              (chain.staking_token_supply s.world))
  unfolding begin_blocker get_minter distribute set_minter add_collected_fees
  begin_blocker-minter s m e = ground arith

  begin_blocker-keeps : (s : State) → IsReady s → IsReady (begin_blocker s).1
  begin_blocker-keeps s h =
      let (m, stored) = h.minter_stored in
      record {
        minter_stored = (
          next_minter m (get_params s) (chain.bonded_ratio s.world)
              (chain.staking_token_supply s.world),
          begin_blocker-minter s m stored,
        );
        params_valid = rw (begin_blocker-params s) h.params_valid;
      }

  init_genesis-IsReady :
      (minter : Minter) (p : Params) (incentives : Coin) (s t : State)
      → init_genesis minter p incentives s ≡ (ok tt, t)
      → IsReady t
  unfolding init_genesis set_minter set_params get_module_account_acc_address mint_coins
  init_genesis-IsReady minter p incentives s t e = elim (Result-cases (validate p)) [
    | inr (x, bad) ↦ absurd (ground arith)
    | inl (tt, valid) ↦ record {
      minter_stored = (minter, ground arith);
      params_valid = (p, ground arith, valid);
    }
  ]

  -- What can happen to the keeper: a request from any sender, or a block.
  pub data Step (s : State) : State → Type 0 where
    updates : (authority : Bytes) (p : Params) → Step s (update_params authority p s).1
    funds : (from : Bytes) (amount : List Coin) → Step s (fund_module_account from amount s).1
    allows :
        (authority address : Bytes) → Step s (add_account_to_fund_module_set authority address s).1
    blocks : Step s (begin_blocker s).1

  pub data Reach (s : State) : State → Type 0 where
    here : Reach s s
    next : {t u : State} → Reach s t → Step t u → Reach s u

  Step-IsReady : {s t : State} → Step s t → IsReady s → IsReady t
  Step-IsReady {s} (updates authority p) h = update_params-keeps authority p s h
  Step-IsReady {s} (funds from amount) h = fund_module_account-keeps from amount s h
  Step-IsReady {s} (allows authority address) h = add_account-keeps authority address s h
  Step-IsReady {s} blocks h = begin_blocker-keeps s h

  Steps-IsReady : {s t : State} → Reach s t → IsReady s → IsReady t
  Steps-IsReady here h = h
  Steps-IsReady (next steps step) h = Step-IsReady step (Steps-IsReady steps h)

  -- After a genesis that did not panic, whatever requests and blocks come, a minter is stored, which
  -- each block reads, and the stored parameters are ones that Validate accepts.
  pub Reach-IsReady :
      (minter : Minter) (p : Params) (incentives : Coin) (s : State) {t u : State}
      → init_genesis minter p incentives s ≡ (ok tt, t)
      → Reach t u
      → IsReady u
  Reach-IsReady minter p incentives s started steps =
      Steps-IsReady steps (init_genesis-IsReady minter p incentives s _ started)

  check_fund-ok :
      (mint_denom : Bytes) (amount : List Coin)
      → check_fund mint_denom amount ≡ ok tt
      → (coin : Coin) × (amount ≡ coin ∷ []) × (coin.denom ≡ mint_denom)
  unfolding check_fund
  check_fund-ok mint_denom [] e = absurd cc
  check_fund-ok mint_denom (coin ∷ []) e =
      (coin, refl, ground (arith, eq_bytes_iff coin.denom mint_denom))
  check_fund-ok mint_denom (coin ∷ other ∷ coins) e = absurd cc

  -- If FundModuleAccount returns without an error, the sender is on the list of the allowed
  -- addresses, the amount is one coin of the mint denom, and the bank has moved it from the sender to
  -- the module's account; nothing but the bank changed.
  pub fund_module_account-allowed :
      (from : Bytes) (amount : List Coin) (s t : State)
      → fund_module_account from amount s ≡ (ok tt, t)
      → (is_allowed_address from s ≡ true)
        × ((sender : Bytes) × (coin : Coin) × (chain.acc_address_from_bech32 from ≡ some sender)
            × (amount ≡ coin ∷ [])
            × (coin.denom ≡ (get_params s).mint_denom)
            × (let (address, w) = chain.get_module_account module_name s.world in
                chain.send_coins sender address amount w ≡ (ok tt, t.world)))
        × (t ≡ record s { world = t.world })
  unfolding fund_module_account get_module_account_acc_address
  fund_module_account-allowed from amount s t e =
      let (address, w) = chain.get_module_account module_name s.world in
      elim (Option-cases (chain.acc_address_from_bech32 from)) [
        | inl bad ↦ absurd (ground arith)
        | inr (sender, known) ↦ elim (Bool-cases (is_allowed_address from s)) [
          | inr other ↦ absurd (ground arith)
          | inl allowed ↦ elim (Result-cases (check_fund (get_params s).mint_denom amount)) [
            | inr (x, bad) ↦ absurd (ground arith)
            | inl (_, good) ↦ elim (Exec-cases (chain.send_coins sender address amount w)) [
              | inr (x, v, failed) ↦ absurd (ground arith)
              | inl (_, v, sent) ↦
                  let (coin, single, minted) = check_fund-ok _ amount good in
                  let same : record s { world = v } ≡ t = ground arith in
                  (
                    allowed,
                    (sender, coin, known, single, minted, sent ∙ ap (λ u. (ok tt, u.world)) same),
                    sym same ∙ ap (λ u. record s { world = u.world }) same,
                  )
            ]
          ]
        ]
      ]
