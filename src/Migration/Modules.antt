-- ===== src/Migration/Modules.antt =====
-- The migrations of the addresses that stand in stored values: staking, slashing, auth,
-- ibctransfermiddleware and ibchooks (bech32-migration). Of a value of the SDK only the addresses are
-- fields here; what else it holds is opaque.
use composable_centauri.Base.{List, [], ◌∷◌, map}
use composable_centauri.Base.Bytes.{Bytes}
use composable_centauri.Base.Exec.{Result, ok, err, Exec, ◌>>◌}
use composable_centauri.Kv.{Kv, get_or}
use composable_centauri.Fees.Config.{ChannelFee}
use composable_centauri.Migration.Addresses.{
  Panic, Bech32, convert_val_addr, convert_cons_addr, convert_acc_addr, safe_convert_address,
}
use composable_centauri.Migration.Stores.{iterate_store_by_prefix}

pub record Validator (Rest : Type 0) : Type 0 where
  pub operator_address : Bytes
  pub rest : Rest

-- A delegation, an unbonding delegation, or a pair of the queue of unbondings
pub record Delegation (Rest : Type 0) : Type 0 where
  pub delegator_address : Bytes
  pub validator_address : Bytes
  pub rest : Rest

-- A redelegation, or a triplet of the queue of redelegations
pub record Redelegation (Rest : Type 0) : Type 0 where
  pub delegator_address : Bytes
  pub validator_src_address : Bytes
  pub validator_dst_address : Bytes
  pub rest : Rest

pub record HistoricalInfo (Rest : Type 0) : Type 0 where
  pub valset : List (Validator Rest)
  pub rest : Rest

pub record ValidatorSigningInfo (Rest : Type 0) : Type 0 where
  pub address : Bytes
  pub rest : Rest

-- The store of the staking module, with a field for each prefix that is migrated
pub record StakingStore ⦃kv : Kv⦄ (Rest : Type 0) : Type 0 where
  pub validators : kv.Store (Validator Rest)
  pub delegations : kv.Store (Delegation Rest)
  pub redelegations : kv.Store (Redelegation Rest)
  pub unbonding_delegations : kv.Store (Delegation Rest)
  pub historical_info : kv.Store (HistoricalInfo Rest)
  pub unbonding_queue : kv.Store (List (Delegation (Unit {0})))
  pub redelegation_queue : kv.Store (List (Redelegation (Unit {0})))
  pub validator_queue : kv.Store (List Bytes)

-- The cases of the switch on an account
pub data AccountType : Type 0 where
  base_account module_account base_vesting_account continuous_vesting_account : AccountType
  delayed_vesting_account periodic_vesting_account permanent_locked_account : AccountType
  unknown_account : AccountType

pub record Account (Rest : Type 0) : Type 0 where
  pub account_type : AccountType
  pub address : Bytes
  pub rest : Rest

-- A loop that stops at the first panic
unfoldable pub convert_all : {V : Type 0} → (V → Result Panic V) → List V → Result Panic (List V)
convert_all fn [] = ok []
convert_all fn (v ∷ values) = elim (fn v) [
  | err e ↦ err e
  | ok converted ↦ elim (convert_all fn values) [ err e ↦ err e | ok rest ↦ ok (converted ∷ rest) ]
]

module _ ⦃bech32 : Bech32⦄ {Rest : Type 0} where
  unfoldable pub convert_validator : Validator Rest → Validator Rest
  convert_validator v = record v { operator_address = convert_val_addr v.operator_address }

  unfoldable pub convert_delegation : Delegation Rest → Result Panic (Delegation Rest)
  convert_delegation d = elim (convert_acc_addr d.delegator_address) [
    | err e ↦ err e
    | ok address ↦ ok (record d {
      delegator_address = address;
      validator_address = convert_val_addr d.validator_address;
    })
  ]

  unfoldable pub convert_redelegation : Redelegation Rest → Result Panic (Redelegation Rest)
  convert_redelegation d = elim (convert_acc_addr d.delegator_address) [
    | err e ↦ err e
    | ok address ↦ ok (record d {
      delegator_address = address;
      validator_src_address = convert_val_addr d.validator_src_address;
      validator_dst_address = convert_val_addr d.validator_dst_address;
    })
  ]

  unfoldable pub convert_historical_info : HistoricalInfo Rest → HistoricalInfo Rest
  unfolding convert_validator
  convert_historical_info h = record h { valset = map convert_validator h.valset }

  unfoldable pub convert_signing_info : ValidatorSigningInfo Rest → ValidatorSigningInfo Rest
  convert_signing_info i = record i { address = convert_cons_addr i.address }

  -- An account of an unknown type is left as it is.
  unfoldable pub convert_account : Account Rest → Result Panic (Account Rest)
  convert_account acc = elim acc.account_type [
    | unknown_account ↦ ok acc
    | _ ↦ elim (convert_acc_addr acc.address) [
      | err e ↦ err e
      | ok address ↦ ok (record acc { address = address })
    ]
  ]

-- A migration of one of the stores that stand in another
abbrev pub on_part :
    {S T : Type 0} → (S → T) → (T → S → S) → Exec Panic T (Unit {0}) → Exec Panic S (Unit {0})
on_part part put run s = let (r, t) = run (part s) in (r, put t s)

module _ ⦃kv : Kv⦄ ⦃bech32 : Bech32⦄ {Rest : Type 0} where
  -- MigrateAddressBech32 of staking
  unfoldable pub migrate_staking : Exec Panic (StakingStore Rest) (Unit {0})
  unfolding iterate_store_by_prefix convert_validator convert_delegation convert_redelegation
      convert_historical_info
  migrate_staking = do
    on_part (λ s. s.validators) (λ t s. record s { validators = t })
        (iterate_store_by_prefix (λ v. ok (convert_validator v)))
    on_part (λ s. s.delegations) (λ t s. record s { delegations = t })
        (iterate_store_by_prefix convert_delegation)
    on_part (λ s. s.redelegations) (λ t s. record s { redelegations = t })
        (iterate_store_by_prefix convert_redelegation)
    on_part (λ s. s.unbonding_delegations) (λ t s. record s { unbonding_delegations = t })
        (iterate_store_by_prefix convert_delegation)
    on_part (λ s. s.historical_info) (λ t s. record s { historical_info = t })
        (iterate_store_by_prefix (λ h. ok (convert_historical_info h)))

  -- MigrateUnbonding
  unfoldable pub migrate_unbonding : Exec Panic (StakingStore Rest) (Unit {0})
  unfolding iterate_store_by_prefix convert_all convert_delegation convert_redelegation
  migrate_unbonding = do
    on_part (λ s. s.unbonding_queue) (λ t s. record s { unbonding_queue = t })
        (iterate_store_by_prefix (convert_all convert_delegation))
    on_part (λ s. s.redelegation_queue) (λ t s. record s { redelegation_queue = t })
        (iterate_store_by_prefix (convert_all convert_redelegation))
    on_part (λ s. s.validator_queue) (λ t s. record s { validator_queue = t })
        (iterate_store_by_prefix (λ addresses. ok (map convert_val_addr addresses)))

  -- MigrateAddressBech32 of slashing
  unfoldable pub migrate_slashing : Exec Panic (kv.Store (ValidatorSigningInfo Rest)) (Unit {0})
  unfolding iterate_store_by_prefix convert_signing_info
  migrate_slashing = iterate_store_by_prefix (λ i. ok (convert_signing_info i))

  -- MigrateAddressBech32 of auth
  unfoldable pub migrate_auth : Exec Panic (kv.Store (Account Rest)) (Unit {0})
  unfolding iterate_store_by_prefix convert_account
  migrate_auth = iterate_store_by_prefix convert_account

module _ ⦃bech32 : Bech32⦄ where
  -- MigrateAddressBech32 of ibctransfermiddleware: without parameters there is no fee to convert.
  unfoldable pub migrate_channel_fees : List ChannelFee → List ChannelFee
  migrate_channel_fees =
      map {A = ChannelFee}
        (λ fee. record fee { fee_address = safe_convert_address fee.fee_address })

module _ ⦃kv : Kv⦄ ⦃bech32 : Bech32⦄ where
  -- MigrateAddressBech32 of ibchooks: each contract is read again under its key.
  unfoldable pub convert_contracts : List (Bytes × Bytes) → kv.Store Bytes → kv.Store Bytes
  convert_contracts [] store = store
  convert_contracts ((full_key, _) ∷ entries) store =
      convert_contracts entries
        (kv.set full_key (safe_convert_address (get_or full_key store [])) store)

  unfoldable pub migrate_ibchooks : kv.Store Bytes → kv.Store Bytes
  unfolding convert_contracts
  migrate_ibchooks store = convert_contracts (kv.entries store) store
