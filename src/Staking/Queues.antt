-- ===== src/Staking/Queues.antt =====
-- What the end of a block does with the mature queues, call by call
-- (BlockValidatorUpdates of custom/staking/keeper/keeper.go).
use composable_centauri.Base.{◌≡◌, ap, ◌⊎◌, ◌↔◌, inl, inr, List, [], ◌∷◌, some, arith, Option-cases}
use composable_centauri.Base.Int.{ℤ}
use composable_centauri.Base.Bytes.{Bytes}
use composable_centauri.Base.Exec.{ok, err, Exec-cases}
use composable_centauri.Fees.Config.{Coin}
use composable_centauri.Staking.Keeper.{
  Chain, Call, from_below, DvPair, DvvTriplet, or_continue, complete_unbondings,
  complete_redelegations, mature_queues,
}

module _ ⦃chain : Chain⦄ where
  -- A call that succeeds, or fails with an error that is no panic.
  abbrev pub Continues : {A : Type 0} → Call A → chain.World → chain.World → Type 0
  Continues {A} call w u = ((a : A) × (call w ≡ (ok a, u))) ⊎ (call w ≡ (err from_below, u))

  or_continue-Continues :
      {A : Type 0} (call : Call A) (w u : chain.World)
      → (or_continue call w ≡ (ok tt, u)) ↔ Continues call w u
  unfolding or_continue
  or_continue-Continues call w u = (
    λ e. elim (Exec-cases (call w)) [
      | inl (a, v, went) ↦ inl (a, ground arith)
      | inr (from_below, v, failed) ↦ inr (ground arith)
      | inr (x, v, failed) ↦ absurd (ground arith)
    ],
    λ h. elim h [ inl (a, went) ↦ ground arith | inr failed ↦ ground arith ],
  )

  -- Each unbonding of the list is completed, in its order.
  abbrev pub Unbonds : List DvPair → chain.World → chain.World → Type 0
  Unbonds [] w w' = w ≡ w'
  Unbonds (pair ∷ pairs) w w' =
      (validator : Bytes) × (delegator : Bytes) × (u : chain.World) × (chain.val_address_from_bech32
          pair.validator_address
        ≡ some validator)
      × (chain.acc_address_from_bech32 pair.delegator_address ≡ some delegator)
      × Continues (chain.complete_unbonding delegator validator) w u
      × Unbonds pairs u w'

  -- Each redelegation of the list is completed, in its order.
  abbrev pub Redelegates : List DvvTriplet → chain.World → chain.World → Type 0
  Redelegates [] w w' = w ≡ w'
  Redelegates (triplet ∷ triplets) w w' =
      (src : Bytes) × (dst : Bytes) × (delegator : Bytes) × (u : chain.World)
      × (chain.val_address_from_bech32 triplet.validator_src_address ≡ some src)
      × (chain.val_address_from_bech32 triplet.validator_dst_address ≡ some dst)
      × (chain.acc_address_from_bech32 triplet.delegator_address ≡ some delegator)
      × Continues (chain.complete_redelegation delegator src dst) w u
      × Redelegates triplets u w'

  complete_unbondings-Unbonds :
      (pairs : List DvPair) (w w' : chain.World)
      → complete_unbondings pairs w ≡ (ok tt, w')
      → Unbonds pairs w w'
  unfolding complete_unbondings
  complete_unbondings-Unbonds [] w w' e = ground arith
  complete_unbondings-Unbonds (pair ∷ pairs) w w' e =
      elim (Option-cases (chain.val_address_from_bech32 pair.validator_address)) [
        | inl bad ↦ absurd (ground arith)
        | inr (validator, known) ↦
            elim (Option-cases (chain.acc_address_from_bech32 pair.delegator_address)) [
              | inl bad ↦ absurd (ground arith)
              | inr (delegator, named) ↦
                  let call : Call (List Coin) = chain.complete_unbonding delegator validator in
                  elim (Exec-cases (or_continue call w)) [
                    | inr (x, u, failed) ↦ absurd (ground arith)
                    | inl (_, u, went) ↦ (
                      validator,
                      delegator,
                      u,
                      known,
                      named,
                      (or_continue-Continues call w u).0 went,
                      complete_unbondings-Unbonds pairs u w' (ground arith),
                    )
                  ]
            ]
      ]

  Unbonds-complete_unbondings :
      (pairs : List DvPair) (w w' : chain.World)
      → Unbonds pairs w w'
      → complete_unbondings pairs w ≡ (ok tt, w')
  unfolding complete_unbondings
  Unbonds-complete_unbondings [] w w' e = ap (λ u. (ok tt, u)) e
  Unbonds-complete_unbondings (pair ∷ pairs) w w'
        (validator, delegator, u, known, named, went, rest) =
      let call : Call (List Coin) = chain.complete_unbonding delegator validator in
      let goes : or_continue call w ≡ (ok tt, u) = (or_continue-Continues call w u).1 went in
      ground (arith, Unbonds-complete_unbondings pairs u w' rest)

  complete_redelegations-Redelegates :
      (triplets : List DvvTriplet) (w w' : chain.World)
      → complete_redelegations triplets w ≡ (ok tt, w')
      → Redelegates triplets w w'
  unfolding complete_redelegations
  complete_redelegations-Redelegates [] w w' e = ground arith
  complete_redelegations-Redelegates (triplet ∷ triplets) w w' e =
      elim (Option-cases (chain.val_address_from_bech32 triplet.validator_src_address)) [
        | inl bad ↦ absurd (ground arith)
        | inr (src, from) ↦
            elim (Option-cases (chain.val_address_from_bech32 triplet.validator_dst_address)) [
              | inl bad ↦ absurd (ground arith)
              | inr (dst, to) ↦
                  elim (Option-cases (chain.acc_address_from_bech32 triplet.delegator_address)) [
                    | inl bad ↦ absurd (ground arith)
                    | inr (delegator, named) ↦
                        let call : Call (List Coin) =
                          chain.complete_redelegation delegator src dst in
                        elim (Exec-cases (or_continue call w)) [
                          | inr (x, u, failed) ↦ absurd (ground arith)
                          | inl (_, u, went) ↦ (
                            src,
                            dst,
                            delegator,
                            u,
                            from,
                            to,
                            named,
                            (or_continue-Continues call w u).0 went,
                            complete_redelegations-Redelegates triplets u w' (ground arith),
                          )
                        ]
                  ]
            ]
      ]

  Redelegates-complete_redelegations :
      (triplets : List DvvTriplet) (w w' : chain.World)
      → Redelegates triplets w w'
      → complete_redelegations triplets w ≡ (ok tt, w')
  unfolding complete_redelegations
  Redelegates-complete_redelegations [] w w' e = ap (λ u. (ok tt, u)) e
  Redelegates-complete_redelegations (triplet ∷ triplets) w w'
        (src, dst, delegator, u, from, to, named, went, rest) =
      let call : Call (List Coin) = chain.complete_redelegation delegator src dst in
      let goes : or_continue call w ≡ (ok tt, u) = (or_continue-Continues call w u).1 went in
      ground (arith, Redelegates-complete_redelegations triplets u w' rest)

  -- The queues of a block: the mature validators are unbonded, then the mature unbondings are taken
  -- from their queue and completed, then the mature redelegations from theirs.
  pub record Matures (block_time : ℤ) (w w' : chain.World) : Type 0 where
    pub unbonded : chain.World
    pub unbonds_validators : chain.unbond_all_mature_validators w ≡ (ok tt, unbonded)
    pub completed : chain.World
    pub completes :
        let (pairs, dequeued) = chain.dequeue_ubd_queue block_time unbonded in
        Unbonds pairs dequeued completed
    pub redelegates :
        let (triplets, dequeued) = chain.dequeue_redelegation_queue block_time completed in
        Redelegates triplets dequeued w'

  pub mature_queues-Matures :
      (block_time : ℤ) (w w' : chain.World)
      → (mature_queues block_time w ≡ (ok tt, w')) ↔ Matures block_time w w'
  unfolding mature_queues
  mature_queues-Matures block_time w w' = (
    λ e. elim (Exec-cases (chain.unbond_all_mature_validators w)) [
      | inr (x, u, failed) ↦ absurd (ground arith)
      | inl (_, u, unbonds) ↦
          let (pairs, v) = chain.dequeue_ubd_queue block_time u in
          elim (Exec-cases (complete_unbondings pairs v)) [
            | inr (x, t, failed) ↦ absurd (ground arith)
            | inl (_, t, completes) ↦ record {
              unbonded = u;
              unbonds_validators = unbonds;
              completed = t;
              completes = complete_unbondings-Unbonds pairs v t completes;
              redelegates =
                  let (triplets, dequeued) = chain.dequeue_redelegation_queue block_time t in
                  complete_redelegations-Redelegates triplets dequeued w' (ground arith);
            }
          ]
    ],
    λ m.
        let (pairs, v) = chain.dequeue_ubd_queue block_time m.unbonded in
        let (triplets, t) = chain.dequeue_redelegation_queue block_time m.completed in
        ground (
          arith,
          m.unbonds_validators,
          Unbonds-complete_unbondings pairs v m.completed m.completes,
          Redelegates-complete_redelegations triplets t w' m.redelegates,
        ),
  )
