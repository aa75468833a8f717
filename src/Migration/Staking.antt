-- ===== src/Migration/Staking.antt =====
-- What the migration of the staking module's store does to each of its parts
-- (bech32-migration/staking/staking.go).
pub mod Moves
use composable_centauri.Base.{◌≡◌, refl, sym, subst, some, arith}
use composable_centauri.Base.Bytes.{Bytes}
use composable_centauri.Base.Exec.{Result, ok, err}
use composable_centauri.Kv.{Kv}
use composable_centauri.Migration.Addresses.{Bech32, Panic}
use composable_centauri.Migration.Codec.{CodecLaws}
use composable_centauri.Migration.Stores.{
  iterate_store_by_prefix, Moved, iterate_store_by_prefix-Moved,
}
use composable_centauri.Migration.Modules.{
  StakingStore, Delegation, Redelegation, convert_validator, convert_delegation,
  convert_redelegation, convert_historical_info, migrate_staking,
}
use composable_centauri.Migration.Staking.Moves.{
  IsOld, ValidatorMoves, DelegationMoves, RedelegationMoves, HistoryMoves, convert_validator-Moves,
  convert_historical_info-Moves, convert_delegation-Moves, convert_redelegation-Moves,
  convert_delegation-Takes, convert_redelegation-Takes,
}

module _ ⦃kv : Kv⦄ ⦃bech32 : Bech32⦄ {Rest : Type 0} where
  -- The stored delegators have addresses under the old prefix.
  pub record HasOldDelegators (s : StakingStore Rest) : Type 0 where
    pub delegations :
        (k : Bytes) (d : Delegation Rest)
        → kv.get k s.delegations ≡ some d
        → IsOld d.delegator_address
    pub redelegations :
        (k : Bytes) (d : Redelegation Rest)
        → kv.get k s.redelegations ≡ some d
        → IsOld d.delegator_address
    pub unbonding_delegations :
        (k : Bytes) (d : Delegation Rest)
        → kv.get k s.unbonding_delegations ≡ some d
        → IsOld d.delegator_address

  -- Each value is moved, and the queues are the same.
  pub record StakingMoves (s t : StakingStore Rest) : Type 0 where
    pub validators :
        (k : Bytes) → Moved ValidatorMoves (kv.get k s.validators) (kv.get k t.validators)
    pub delegations :
        (k : Bytes) → Moved DelegationMoves (kv.get k s.delegations) (kv.get k t.delegations)
    pub redelegations :
        (k : Bytes) → Moved RedelegationMoves (kv.get k s.redelegations) (kv.get k t.redelegations)
    pub unbonding_delegations :
        (k : Bytes)
        → Moved DelegationMoves
            (kv.get k s.unbonding_delegations)
            (kv.get k t.unbonding_delegations)
    pub historical_info :
        (k : Bytes) → Moved HistoryMoves (kv.get k s.historical_info) (kv.get k t.historical_info)
    pub unbonding_queue : t.unbonding_queue ≡ s.unbonding_queue
    pub redelegation_queue : t.redelegation_queue ≡ s.redelegation_queue
    pub validator_queue : t.validator_queue ≡ s.validator_queue

  -- Where the stored delegators have addresses under the old prefix, and the codec keeps the laws of
  -- bech32, the migration of the staking store returns. In each delegation, redelegation and unbonding
  -- delegation the delegator's address is printed under the new prefix; so is the validator's in these,
  -- in each validator and in the validators of each historical record, unless the text is none under
  -- the old prefix, which stays. Every value keeps its key and its rest, none is added, and the three
  -- queues are left as they are.
  pub migrate_staking-StakingMoves :
      (laws : CodecLaws) (s : StakingStore Rest)
      → HasOldDelegators s
      → let (result, t) = migrate_staking s in (result ≡ ok tt) × StakingMoves s t
  unfolding migrate_staking
  migrate_staking-StakingMoves laws s old =
      let (validated, validators) =
        iterate_store_by_prefix-Moved (λ v. ok (convert_validator v)) ValidatorMoves s.validators
          (λ k v found. (convert_validator v, refl))
          (λ v w e. subst (ValidatorMoves v) (ground arith) (convert_validator-Moves laws v)) in
      let (delegated, delegations) =
        iterate_store_by_prefix-Moved convert_delegation DelegationMoves s.delegations
          (λ k d found. convert_delegation-Takes d (old.delegations k d found))
          (convert_delegation-Moves laws) in
      let (redelegated, redelegations) =
        iterate_store_by_prefix-Moved convert_redelegation RedelegationMoves s.redelegations
          (λ k d found. convert_redelegation-Takes d (old.redelegations k d found))
          (convert_redelegation-Moves laws) in
      let (unbonded, unbondings) =
        iterate_store_by_prefix-Moved convert_delegation DelegationMoves s.unbonding_delegations
          (λ k d found. convert_delegation-Takes d (old.unbonding_delegations k d found))
          (convert_delegation-Moves laws) in
      let (recorded, history) =
        iterate_store_by_prefix-Moved (λ h. ok (convert_historical_info h)) HistoryMoves
          s.historical_info (λ k h found. (convert_historical_info h, refl))
          (λ h w e. subst (HistoryMoves h) (ground arith) (convert_historical_info-Moves laws h)) in
      let after : StakingStore Rest = record s {
        validators = (iterate_store_by_prefix (λ v. ok (convert_validator v)) s.validators).1;
        delegations = (iterate_store_by_prefix convert_delegation s.delegations).1;
        redelegations = (iterate_store_by_prefix convert_redelegation s.redelegations).1;
        unbonding_delegations =
            (iterate_store_by_prefix convert_delegation s.unbonding_delegations).1;
        historical_info =
            (iterate_store_by_prefix (λ h. ok (convert_historical_info h)) s.historical_info).1;
      } in
      let ran : migrate_staking s ≡ (ok tt, after) = ground arith in
      subst (λ x. (x.0 ≡ ok tt) × StakingMoves s x.1) (sym ran)
        (
          refl,
          record {
            validators = validators;
            delegations = delegations;
            redelegations = redelegations;
            unbonding_delegations = unbondings;
            historical_info = history;
            unbonding_queue = refl;
            redelegation_queue = refl;
            validator_queue = refl;
          },
        )
