-- ===== src/Staking/Samples.antt =====
-- The default epoch, one with a window, and a chain that counts.
use composable_centauri.Base.{
  ℕ, suc, ◌%◌, ◌≤◌, ◌<◌, ◌==◌, ◌≡◌, ◌↔◌, refl, ◌⊎◌, [], ◌∷◌, some, none, arith,
}
use composable_centauri.Base.Int.{ℤ, pos}
use composable_centauri.Base.Bytes.{Bytes, bytes}
use composable_centauri.Base.Exec.{ok}
use composable_centauri.Staking.Params.{
  Params, State, get_params, set_params, update_epoch_params, init_genesis,
}
use composable_centauri.Staking.Keeper.{
  Chain, batch_updates, mature_queues, block_validator_updates, epoch_progress, undelegate,
}
use composable_centauri.Staking.Epochs.{until_epoch, EndsBlock, block_validator_updates-once}
use composable_centauri.Staking.Epochs.Reach.{
  IsSound, Reach-progress, undelegate-window, here, next,
}

-- The world counts the calls.
instance abbrev sample_chain : Chain
sample_chain = record {
  World = ℕ;
  ValidatorUpdate = ℕ;
  Message = Bytes;
  Response = Bytes;
  empty_response = [];
  apply_updates = λ w. (ok (w ∷ []), suc w);
  unbond_all_mature_validators = λ w. (ok tt, suc w);
  dequeue_ubd_queue = λ time w. ([], w);
  dequeue_redelegation_queue = λ time w. ([], w);
  val_address_from_bech32 = λ b. some b;
  acc_address_from_bech32 = λ b. some b;
  complete_unbonding = λ d v w. (ok [], suc w);
  complete_redelegation = λ d v v' w. (ok [], suc w);
  begin_redelegate = λ msg w. (ok msg, suc w);
  undelegate = λ msg w. (ok msg, suc w);
  Factor = ℕ;
  slash = λ addr height power factor w. (ok (pos factor), w);
  bond_denom = λ w. bytes "ppica";
  new_coins = λ denom amount. ok (record { denom = denom; amount = amount } ∷ []);
  mint_coins = λ coins w. (ok tt, suc w);
  fund_community_pool = λ coins w. (ok tt, suc w);
}

abbrev epoch_of_ten : Params
epoch_of_ten = record { blocks_per_epoch = 10; allow_unbond_after_epoch_progress_block_number = 7 }

abbrev fresh : State
fresh = record { authority = bytes "gov"; stored = none }

abbrev ten : State
ten = record fresh { stored = some epoch_of_ten }

abbrev wrong : Params
wrong = record { blocks_per_epoch = 0; allow_unbond_after_epoch_progress_block_number = 0 }

-- The epoch after height 1234 begins six blocks later.
block_validator_updates-once_example :
    let first : ℕ = until_epoch 1234 10 in
    (first < 10)
    × ((block_validator_updates ten (pos 0) (pos 1240) 5 ≡ (ok (5 ∷ []), 7))
        ↔ EndsBlock (6 == first) (pos 0) (5 ∷ []) 5 7)
unfolding get_params
block_validator_updates-once_example =
    block_validator_updates-once ten 1234 6 (pos 0) (5 ∷ []) 5 7 (omega arith) (omega arith)
      (omega arith)

-- The updates are returned.
updated_once : block_validator_updates ten (pos 0) (pos 1240) 5 ≡ (ok (5 ∷ []), 7)
unfolding block_validator_updates get_params batch_updates mature_queues
updated_once = refl

-- A request for epochs of no blocks is refused.
Reach-progress_example :
    let u : State = (update_epoch_params (bytes "gov") wrong ten).1 in
    IsSound (get_params u)
    × ((height : ℤ) → (progress : ℤ) × (epoch_progress height (get_params u) ≡ ok progress))
unfolding init_genesis set_params
Reach-progress_example =
    Reach-progress epoch_of_ten fresh (omega arith, omega arith) refl
      (next (bytes "gov") wrong here (omega arith, omega arith))

ten-IsSound : IsSound epoch_of_ten
ten-IsSound = record {
  word = (omega arith, omega arith);
  long_enough = omega arith;
  within = omega arith;
}

-- Three blocks into an epoch.
undelegate-window_example :
    let past : ℕ = 1233 % 10 in
    (((past ≡ 0) ⊎ (7 < past))
      × (undelegate ten (pos 1233) (bytes "all") 5 ≡ sample_chain.undelegate (bytes "all") 5))
    ⊎ ((1 ≤ past) × (past ≤ 7) × (undelegate ten (pos 1233) (bytes "all") 5 ≡ (ok [], 5)))
unfolding get_params
undelegate-window_example = undelegate-window ten 1233 (bytes "all") 5 ten-IsSound (omega arith)
