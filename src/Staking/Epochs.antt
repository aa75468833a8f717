-- ===== src/Staking/Epochs.antt =====
-- The epochs: the parameters never divide by zero, and each epoch updates the validators once.
pub mod Reach
use composable_centauri.Base.{
  ℕ, suc, zero, ◌+◌, ◌-◌, ◌%◌, ◌^◌, ◌≤◌, ◌<◌, ◌==◌, ◌≡◌, refl, sym, ap, subst, ◌↔◌, [], ◌∙◌, ◌⊎◌,
  inl, inr, Bool, true, false, not, List, some, none, Option, if◌then◌else◌, leb, ltb, arith,
  Bool-cases,
}
use native.Mathlib.Nat.{mod-lt, mod-add-mod, mod-eq_of_lt, mod-eq-sub-mod}
use composable_centauri.Base.Int.{ℤ, pos, is_zero, ltb_ℤ, int_laws}
use composable_centauri.Base.Word.{to_int64, to_int64-small}
use composable_centauri.Base.Bytes.{Bytes, eq_bytes}
use composable_centauri.Base.Exec.{Result, ok, err, pure, Exec-cases, ◌>>=◌, ◌>>◌}
use composable_centauri.Staking.Params.{
  Params, State, Error, get_params, set_params, update_epoch_params, init_genesis,
}
use composable_centauri.Staking.Queues.{Matures, mature_queues-Matures}
use composable_centauri.Staking.Keeper.{
  Chain, Failure, Call, rem, epoch_progress, is_open, batch_updates, mature_queues,
  block_validator_updates, in_window, undelegate,
}

-- The first multiple of an epoch at or after a height, counted from it.
abbrev pub until_epoch : ℕ → ℕ → ℕ
until_epoch height blocks = let past : ℕ = height % blocks in if past == 0 then 0 else blocks - past

step-mod : (r j b : ℕ) → r < b → j < b → (r + j) % b ≡ (if leb b (r + j) then r + j - b else r + j)
step-mod r j b h k = elim (Bool-cases (leb b (r + j))) [
  | inl over ↦
      rw over (mod-eq-sub-mod {n = r + j} {m = b} (ground arith) ∙ mod-eq_of_lt (ground arith))
  | inr under ↦ rw under (mod-eq_of_lt (ground arith))
]

at_boundary :
    (r j b : ℕ)
    → r < b
    → j < b
    → ((if leb b (r + j) then r + j - b else r + j) == 0) ≡ (j == (if r == 0 then 0 else b - r))
at_boundary r j b h k = ground arith

boundary :
    (height j blocks : ℕ)
    → j < blocks
    → ((height + j) % blocks == 0) ≡ (j == until_epoch height blocks)
boundary height j blocks h =
    let past : ℕ = height % blocks in
    let within : past < blocks = mod-lt height (omega arith) in
    let step : (height + j) % blocks
        ≡ (if leb blocks (past + j) then past + j - blocks else past + j) =
      sym (mod-add-mod height blocks j) ∙ step-mod past j blocks within h in
    rw step (at_boundary past j blocks within h)

-- In an epoch that fits an int64, at a height that is not negative.
pub epoch_progress-small :
    (height : ℕ) (p : Params)
    → 1 ≤ p.blocks_per_epoch
    → p.blocks_per_epoch < 2 ^ 63
    → epoch_progress (pos height) p ≡ ok (pos (height % p.blocks_per_epoch))
unfolding epoch_progress rem
epoch_progress-small height p h k = rw (to_int64-small p.blocks_per_epoch k) (ground arith)

until_epoch-lt : (height blocks : ℕ) → 1 ≤ blocks → until_epoch height blocks < blocks
until_epoch-lt height blocks h =
    let within : height % blocks < blocks = mod-lt height h in ground arith

module _ ⦃chain : Chain⦄ where
  block_validator_updates-at :
      (s : State) (block_time height : ℤ) (w : chain.World) {progress : ℤ}
      → epoch_progress height (get_params s) ≡ ok progress
      → block_validator_updates s block_time height w
        ≡ (batch_updates (is_zero progress) >>= λ updates. mature_queues block_time >> pure updates)
            w
  unfolding block_validator_updates
  block_validator_updates-at s block_time height w e = rw (block_validator_updates, e) refl

  -- What a block returns and leaves: at its turn the updates of the staking module, otherwise none
  -- and nothing applied; then the queues.
  abbrev pub EndsBlock : Bool → ℤ → List chain.ValidatorUpdate → chain.World → chain.World → Type 0
  EndsBlock true block_time updates w w' =
      (u : chain.World) × (chain.apply_updates w ≡ (ok updates, u)) × Matures block_time u w'
  EndsBlock false block_time updates w w' = (updates ≡ []) × Matures block_time w w'

  then_queues :
      (turn : Bool) (block_time : ℤ) (updates : List chain.ValidatorUpdate) (w w' : chain.World)
      → ((batch_updates turn >>= λ v. mature_queues block_time >> pure v) w ≡ (ok updates, w'))
        ↔ EndsBlock turn block_time updates w w'
  unfolding batch_updates
  then_queues false block_time updates w w' = (
    λ e. elim (Exec-cases (mature_queues block_time w)) [
      | inr (x, u, failed) ↦ absurd (ground arith)
      | inl (_, u, done) ↦ (ground arith, (mature_queues-Matures block_time w w').0 (ground arith))
    ],
    λ h. let done = (mature_queues-Matures block_time w w').1 h.1 in ground (arith, done, h.0),
  )
  then_queues true block_time updates w w' = (
    λ e. elim (Exec-cases (chain.apply_updates w)) [
      | inr (x, u, failed) ↦ absurd (ground arith)
      | inl (v, u, applied) ↦ elim (Exec-cases (mature_queues block_time u)) [
        | inr (x, t, failed) ↦ absurd (ground arith)
        | inl (_, t, done) ↦
            (u, ground arith, (mature_queues-Matures block_time u w').0 (ground arith))
      ]
    ],
    λ h. let done = (mature_queues-Matures block_time h.0 w').1 h.2 in ground (arith, done, h.1),
  )

  -- Where the blocks of an epoch are a positive int64, the heights from any one on as many as an epoch
  -- has blocks have one among them, and no other, at which the end of the block returns what the
  -- staking module applies as updates; at the others it returns none and applies nothing. It returns
  -- exactly if the calls of the staking module do, or fail where the code goes on, in the order of the
  -- code: the updates, the mature validators, then each mature unbonding and each mature redelegation.
  pub block_validator_updates-once :
      (s : State) (height j : ℕ) (block_time : ℤ) (updates : List chain.ValidatorUpdate)
      (w w' : chain.World)
      → 1 ≤ (get_params s).blocks_per_epoch
      → (get_params s).blocks_per_epoch < 2 ^ 63
      → j < (get_params s).blocks_per_epoch
      → let first : ℕ = until_epoch height (get_params s).blocks_per_epoch in
        (first < (get_params s).blocks_per_epoch)
        × ((block_validator_updates s block_time (pos (height + j)) w ≡ (ok updates, w'))
            ↔ EndsBlock (j == first) block_time updates w w')
  block_validator_updates-once s height j block_time updates w w' h small k =
      let b : ℕ = (get_params s).blocks_per_epoch in
      let run : Bool → Result Failure (List chain.ValidatorUpdate) × chain.World =
        λ turn. (batch_updates turn >>= λ v. mature_queues block_time >> pure v) w in
      let same : block_validator_updates s block_time (pos (height + j)) w
          ≡ run (j == until_epoch height b) =
        block_validator_updates-at s block_time (pos (height + j)) w
          (epoch_progress-small (height + j) (get_params s) h small)
        ∙ ap run (boundary height j b k) in
      (
        until_epoch-lt height b h,
        subst
            (λ r.
              (r ≡ (ok updates, w'))
              ↔ EndsBlock (j == until_epoch height b) block_time updates w w')
            (sym same) (then_queues (j == until_epoch height b) block_time updates w w'),
      )
