-- ===== src/Staking/Keeper.antt =====
-- What custom/staking does at the end of a block and around the staking messages
-- (custom/staking/keeper/keeper.go and msg_server.go, and custom/staking/abci.go). The staking module
-- of the SDK, the mint and the distribution modules are parameters.
use composable_centauri.Base.{
  suc, ◌+◌, ◌%◌, Bool, true, false, ◌||◌, List, [], ◌∷◌, Option, none, some, if◌then◌else◌,
}
use composable_centauri.Base.Int.{ℤ, pos, negsuc, ◌-ℤ◌, pos_part, neg_part, ltb_ℤ, is_zero}
use composable_centauri.Base.Word.{to_int64}
use composable_centauri.Base.Bytes.{Bytes}
use composable_centauri.Base.Exec.{Result, ok, err, Exec, pure, gets, raise, ◌>>=◌, ◌>>◌}
use composable_centauri.Fees.Config.{Coin}
use composable_centauri.Staking.Params.{Params, State, get_params}

pub data Failure : Type 0 where
  from_below : Failure
  -- panics
  division_by_zero panicked : Failure

-- stakingtypes.DVPair and DVVTriplet
pub record DvPair : Type 0 where
  pub delegator_address : Bytes
  pub validator_address : Bytes

pub record DvvTriplet : Type 0 where
  pub delegator_address : Bytes
  pub validator_src_address : Bytes
  pub validator_dst_address : Bytes

-- The modules that custom/staking is built on.
pub record Chain : Type 1 where
  pub World : Type 0
  pub ValidatorUpdate : Type 0
  pub Message : Type 0
  pub Response : Type 0
  pub empty_response : Response
  -- ApplyAndReturnValidatorSetUpdates and UnbondAllMatureValidators
  pub apply_updates : Exec Failure World (List ValidatorUpdate)
  pub unbond_all_mature_validators : Exec Failure World (Unit {0})
  -- DequeueAllMatureUBDQueue and DequeueAllMatureRedelegationQueue, at the time of the block
  pub dequeue_ubd_queue : ℤ → World → List DvPair × World
  pub dequeue_redelegation_queue : ℤ → World → List DvvTriplet × World
  pub val_address_from_bech32 : Bytes → Option Bytes
  pub acc_address_from_bech32 : Bytes → Option Bytes
  -- CompleteUnbonding and CompleteRedelegation
  pub complete_unbonding : Bytes → Bytes → Exec Failure World (List Coin)
  pub complete_redelegation : Bytes → Bytes → Bytes → Exec Failure World (List Coin)
  -- The messages BeginRedelegate and Undelegate of the SDK
  pub begin_redelegate : Message → Exec Failure World Response
  pub undelegate : Message → Exec Failure World Response
  -- Slash: the amount that was burnt; MintCoins of x/mint and FundCommunityPool
  pub Factor : Type 0
  pub slash : Bytes → ℤ → ℤ → Factor → Exec Failure World ℤ
  pub bond_denom : World → Bytes
  pub new_coins : Bytes → ℤ → Result Failure (List Coin)
  pub mint_coins : List Coin → Exec Failure World (Unit {0})
  pub fund_community_pool : List Coin → Exec Failure World (Unit {0})

-- `a % b` of int64, which has the sign of a. The divisor is not zero.
unfoldable pub rem : ℤ → ℤ → ℤ
rem (pos a) b = pos (a % (pos_part b + neg_part b))
rem (negsuc a) b = pos 0 -ℤ pos (suc a % (pos_part b + neg_part b))

-- `height % int64(params.BlocksPerEpoch)`
unfoldable pub epoch_progress : ℤ → Params → Result Failure ℤ
unfolding rem to_int64
epoch_progress height params =
    let blocks : ℤ = to_int64 params.blocks_per_epoch in
    if is_zero blocks then err division_by_zero else ok (rem height blocks)

-- The window of an epoch in which BeginRedelegate and Undelegate are passed on.
unfoldable pub is_open : ℤ → Params → Bool
unfolding to_int64
is_open progress params =
    ltb_ℤ (to_int64 params.allow_unbond_after_epoch_progress_block_number) progress
    || is_zero progress

module _ ⦃chain : Chain⦄ where
  abbrev pub Call : Type 0 → Type 0
  Call A = Exec Failure chain.World A

  abbrev pub must : {A : Type 0} → Option A → Call A
  must none = raise panicked
  must (some a) = pure a

  -- `if _, err := call; err != nil { continue }`: a panic goes through.
  unfoldable pub or_continue : {A : Type 0} → Call A → Call (Unit {0})
  or_continue call w =
      let (r, w') = call w in
      elim r [ ok a ↦ (ok tt, w') | err from_below ↦ (ok tt, w') | err e ↦ (err e, w') ]

  -- The loop over the mature unbondings.
  unfoldable pub complete_unbondings : List DvPair → Call (Unit {0})
  unfolding or_continue
  complete_unbondings [] = pure tt
  complete_unbondings (pair ∷ pairs) = do
    addr ← must (chain.val_address_from_bech32 pair.validator_address)
    delegator_address ← must (chain.acc_address_from_bech32 pair.delegator_address)
    or_continue (chain.complete_unbonding delegator_address addr)
    complete_unbondings pairs

  -- The loop over the mature redelegations.
  unfoldable pub complete_redelegations : List DvvTriplet → Call (Unit {0})
  unfolding or_continue
  complete_redelegations [] = pure tt
  complete_redelegations (triplet ∷ triplets) = do
    val_src_addr ← must (chain.val_address_from_bech32 triplet.validator_src_address)
    val_dst_addr ← must (chain.val_address_from_bech32 triplet.validator_dst_address)
    delegator_address ← must (chain.acc_address_from_bech32 triplet.delegator_address)
    or_continue (chain.complete_redelegation delegator_address val_src_addr val_dst_addr)
    complete_redelegations triplets

  -- The validator updates of a block: none but in the first block of an epoch. An error of
  -- ApplyAndReturnValidatorSetUpdates is a panic.
  unfoldable pub batch_updates : Bool → Call (List chain.ValidatorUpdate)
  batch_updates false w = (ok [], w)
  batch_updates true w =
      let (r, w') = chain.apply_updates w in
      elim r [ ok v ↦ (ok v, w') | err e ↦ (err panicked, w') ]

  -- The rest of BlockValidatorUpdates: the mature queues, in every block.
  unfoldable pub mature_queues : ℤ → Call (Unit {0})
  unfolding complete_unbondings complete_redelegations
  mature_queues block_time = do
    chain.unbond_all_mature_validators
    mature_unbonds ← λ w. (let (pairs, w') = chain.dequeue_ubd_queue block_time w in (ok pairs, w'))
    complete_unbondings mature_unbonds
    mature_redelegations ← λ w.
        (let (triplets, w') = chain.dequeue_redelegation_queue block_time w in (ok triplets, w'))
    complete_redelegations mature_redelegations

  -- BlockValidatorUpdates, and EndBlocker
  unfoldable pub block_validator_updates : State → ℤ → ℤ → Call (List chain.ValidatorUpdate)
  unfolding epoch_progress batch_updates mature_queues get_params
  block_validator_updates s block_time height = elim (epoch_progress height (get_params s)) [
    | err e ↦ raise e
    | ok progress ↦ do
      validator_updates ← batch_updates (is_zero progress)
      mature_queues block_time
      pure validator_updates
  ]

  -- BeginRedelegate and Undelegate: a message that comes outside the window is answered with an
  -- empty response.
  unfoldable pub in_window :
      (chain.Message → Call chain.Response) → State → ℤ → chain.Message → Call chain.Response
  unfolding epoch_progress is_open get_params
  in_window handle s height msg = elim (epoch_progress height (get_params s)) [
    | err e ↦ raise e
    | ok progress ↦
        if is_open progress (get_params s) then handle msg else pure chain.empty_response
  ]

  unfoldable pub begin_redelegate : State → ℤ → chain.Message → Call chain.Response
  unfolding in_window
  begin_redelegate = in_window chain.begin_redelegate

  unfoldable pub undelegate : State → ℤ → chain.Message → Call chain.Response
  unfolding in_window
  undelegate = in_window chain.undelegate

  -- The end of SlashWithInfractionReason: an error is logged, a panic goes through.
  unfoldable pub mint_into_community_pool : List Coin → Call (Unit {0})
  unfolding or_continue
  mint_into_community_pool coins =
      or_continue (chain.mint_coins coins >> chain.fund_community_pool coins)

  -- SlashWithInfractionReason
  unfoldable pub slash_with_infraction_reason : Bytes → ℤ → ℤ → chain.Factor → Call ℤ
  unfolding mint_into_community_pool
  slash_with_infraction_reason cons_addr infraction_height power slash_factor = do
    amount_burned ← chain.slash cons_addr infraction_height power slash_factor
    denom ← gets chain.bond_denom
    coins ← λ w. (chain.new_coins denom amount_burned, w)
    mint_into_community_pool coins
    pure amount_burned
