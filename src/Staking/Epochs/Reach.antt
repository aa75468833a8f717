-- ===== src/Staking/Epochs/Reach.antt =====
-- The parameters that a chain can come to, and the window in which messages are passed on.
use composable_centauri.Base.{
  ℕ, ◌%◌, ◌^◌, ◌≤◌, ◌<◌, ◌≡◌, refl, sym, subst, ◌⊎◌, inl, inr, true, false, some, ltb, arith,
  Bool-cases,
}
use composable_centauri.Base.Int.{ℤ, pos, is_zero, ◌-ℤ◌}
use composable_centauri.Base.Word.{to_int64, to_int64-small}
use composable_centauri.Base.Bytes.{Bytes, eq_bytes}
use composable_centauri.Base.Exec.{ok}
use composable_centauri.Staking.Params.{
  Params, State, get_params, set_params, update_epoch_params, init_genesis,
}
use composable_centauri.Staking.Keeper.{Chain, epoch_progress, rem, is_open, in_window, undelegate}
use composable_centauri.Staking.Epochs.{epoch_progress-small}

-- The parameters fit their type.
abbrev pub IsWord : Params → Type 0
IsWord p =
    (p.blocks_per_epoch < 2 ^ 64) × (p.allow_unbond_after_epoch_progress_block_number < 2 ^ 64)

-- What the checks of SetParams let through.
pub record IsSound (p : Params) : Type 0 where
  pub word : IsWord p
  pub long_enough : 5 ≤ p.blocks_per_epoch
  pub within : p.allow_unbond_after_epoch_progress_block_number ≤ p.blocks_per_epoch

-- The parameters are stored, and sound.
abbrev pub IsConfigured : State → Type 0
IsConfigured s = (p : Params) × (s.stored ≡ some p) × IsSound p

set_params-stores :
    (p : Params) (s t : State) → IsWord p → set_params p s ≡ (ok tt, t) → IsConfigured t
unfolding set_params
set_params-stores p s t fits e =
    (p, ground arith, record { word = fits; long_enough = ground arith; within = ground arith })

set_params-keeps :
    (p : Params) (s : State) → IsWord p → IsConfigured s → IsConfigured (set_params p s).1
unfolding set_params
set_params-keeps p s fits h = elim (Bool-cases (ltb p.blocks_per_epoch 5)) [
  | inl short ↦ rw (set_params, short) h
  | inr long ↦
      elim (Bool-cases (ltb p.blocks_per_epoch p.allow_unbond_after_epoch_progress_block_number)) [
        | inl late ↦ rw (set_params, long, late) h
        | inr timely ↦
            rw (set_params, long, timely)
              (p, refl, record { word = fits; long_enough = ground arith; within = ground arith })
      ]
]

-- Requests to change the parameters, from any sender.
pub data Reach (s : State) : State → Type 0 where
  here : Reach s s
  next :
      {t : State} (authority : Bytes) (p : Params)
      → Reach s t
      → IsWord p
      → Reach s (update_epoch_params authority p t).1

update_epoch_params-keeps :
    (authority : Bytes) (p : Params) (s : State)
    → IsWord p
    → IsConfigured s
    → IsConfigured (update_epoch_params authority p s).1
unfolding update_epoch_params
update_epoch_params-keeps authority p s fits h =
    elim (Bool-cases (eq_bytes s.authority authority)) [
      | inl same ↦ rw (update_epoch_params, same) (set_params-keeps p s fits h)
      | inr other ↦ rw (update_epoch_params, other) h
    ]

Reach-IsConfigured : {s t : State} → IsConfigured s → Reach s t → IsConfigured t
Reach-IsConfigured h here = h
Reach-IsConfigured h (next authority p steps fits) =
    update_epoch_params-keeps authority p _ fits (Reach-IsConfigured h steps)

word_nonzero : (n : ℕ) → 1 ≤ n → n < 2 ^ 64 → is_zero (to_int64 n) ≡ false
unfolding to_int64 ◌-ℤ◌
word_nonzero n h k = ground arith

is_open-cases :
    (past : ℕ) (p : Params)
    → p.allow_unbond_after_epoch_progress_block_number < 2 ^ 63
    → ((is_open (pos past) p ≡ true)
        × ((past ≡ 0) ⊎ (p.allow_unbond_after_epoch_progress_block_number < past)))
      ⊎ ((is_open (pos past) p ≡ false)
          × (1 ≤ past)
          × (past ≤ p.allow_unbond_after_epoch_progress_block_number))
unfolding is_open
is_open-cases past p h =
    rw (is_open, to_int64-small p.allow_unbond_after_epoch_progress_block_number h) (ground arith)

IsSound-progress :
    (p : Params) (height : ℤ) → IsSound p → (progress : ℤ) × (epoch_progress height p ≡ ok progress)
unfolding epoch_progress
IsSound-progress p height h = (
  rem height (to_int64 p.blocks_per_epoch),
  rw (epoch_progress, word_nonzero p.blocks_per_epoch (omega (arith, h.long_enough)) h.word.0) refl,
)

-- After a genesis that did not panic, with parameters that fit 64 bits, and any requests to change
-- them, an epoch has at least five blocks and the window opens within it, and the progress in the
-- epoch is defined at every height: no block divides by zero.
pub Reach-progress :
    (genesis : Params) (s : State) {t u : State}
    → IsWord genesis
    → init_genesis genesis s ≡ (ok tt, t)
    → Reach t u
    → IsSound (get_params u)
      × ((height : ℤ) → (progress : ℤ) × (epoch_progress height (get_params u) ≡ ok progress))
unfolding init_genesis get_params
Reach-progress genesis s {t} {u} fits started steps =
    let (p, stored, sound) =
      Reach-IsConfigured (set_params-stores genesis s t fits started) steps in
    let read : get_params u ≡ p = ground arith in
    (
      subst IsSound (sym read) sound,
      λ height. IsSound-progress (get_params u) height (subst IsSound (sym read) sound),
    )

module _ ⦃chain : Chain⦄ where
  -- With sound parameters that are positive int64, at a height that is not negative, Undelegate does
  -- what the staking module does in the first block of an epoch and after the number of blocks that
  -- the parameters name; in the blocks between it answers with an empty response and does nothing.
  pub undelegate-window :
      (s : State) (height : ℕ) (msg : chain.Message) (w : chain.World)
      → IsSound (get_params s)
      → (get_params s).blocks_per_epoch < 2 ^ 63
      → let past : ℕ = height % (get_params s).blocks_per_epoch in
        let closed : ℕ = (get_params s).allow_unbond_after_epoch_progress_block_number in
        (((past ≡ 0) ⊎ (closed < past))
          × (undelegate s (pos height) msg w ≡ chain.undelegate msg w))
        ⊎ ((1 ≤ past)
            × (past ≤ closed)
            × (undelegate s (pos height) msg w ≡ (ok chain.empty_response, w)))
  unfolding undelegate in_window
  undelegate-window s height msg w h small =
      let p : Params = get_params s in
      let past : ℕ = height % p.blocks_per_epoch in
      let progress : epoch_progress (pos height) p ≡ ok (pos past) =
        epoch_progress-small height p (omega (arith, h.long_enough)) small in
      elim (is_open-cases past p (omega (arith, h.within, small))) [
        | inl (opened, in_it) ↦ inl (in_it, rw (in_window, progress, opened) refl)
        | inr (shut, late, early) ↦ inr (late, early, rw (in_window, progress, shut) refl)
      ]
