-- ===== src/TxBoundary/Ante.antt =====
-- The ante handler that checks the messages of a transaction (x/tx-boundary/ante/decorate.go).
pub mod Nested
use composable_centauri.Base.{
  ℕ, Bool, true, false, Option, none, some, not, ltb, ◌==◌, if◌then◌else◌,
}
use composable_centauri.Base.Int.{ℤ}
use composable_centauri.Base.Bytes.{Bytes}
use composable_centauri.Base.Exec.{Exec, pure, gets, modify, raise, raise_if, ok, err, ◌>>=◌, ◌>>◌}
use composable_centauri.Kv.{Kv}
use composable_centauri.Sdk.{Sdk}
use composable_centauri.TxBoundary.Keeper.{
  Error, State, Action, invalid_address, delegate_denied, redelegate_denied, unreadable_message,
  get_delegate_boundary, get_redelegate_boundary, get_limit_per_addr, update_limit_per_addr,
  increment_delegate_count, increment_redelegate_count,
}

-- The messages that the handler tells apart: a delegation and a redelegation by their delegator,
-- the execution of packed messages, and every other one. A packed message is what UnpackAny makes
-- of it, or unreadable.
mutual
  pub data Msg : Type 0 where
    msg_delegate : Bytes → Msg
    msg_begin_redelegate : Bytes → Msg
    msg_exec : Msgs → Msg
    msg_other : Msg

  pub data Msgs : Type 0 where
    no_msgs : Msgs
    readable : Msg → Msgs → Msgs
    unreadable : Msgs → Msgs

module _ ⦃sdk : Sdk⦄ ⦃kv : Kv⦄ where
  -- validDelegateMsg, at a block height.
  unfoldable pub valid_delegate_msg : ℤ → Bytes → Action (Unit {0})
  valid_delegate_msg block_height delegator_address = do
    boundary ← get_delegate_boundary
    elim (sdk.acc_address_from_bech32 delegator_address) [
      | none ↦ raise invalid_address
      | some delegator ↦ do
        update_limit_per_addr block_height delegator
        elim (boundary.tx_limit == 0) [
          | true ↦ pure tt
          | false ↦ do
            raise_if
                (← gets (λ s.
                  not (ltb (get_limit_per_addr delegator s).delegate_count boundary.tx_limit)))
                delegate_denied
            modify (increment_delegate_count block_height delegator)
        ]
    ]

  -- validRedelegateMsg
  unfoldable pub valid_redelegate_msg : ℤ → Bytes → Action (Unit {0})
  valid_redelegate_msg block_height delegator_address = do
    boundary ← get_redelegate_boundary
    elim (sdk.acc_address_from_bech32 delegator_address) [
      | none ↦ raise invalid_address
      | some delegator ↦ do
        update_limit_per_addr block_height delegator
        elim (boundary.tx_limit == 0) [
          | true ↦ pure tt
          | false ↦ do
            raise_if
                (← gets (λ s.
                  not (ltb (get_limit_per_addr delegator s).reledegate_count boundary.tx_limit)))
                redelegate_denied
            modify (increment_redelegate_count block_height delegator)
        ]
    ]

  unfoldable mutual
    -- ValidateStakingMsg
    pub validate_staking_msg : ℤ → Msg → Action (Unit {0})
    validate_staking_msg h (msg_delegate delegator) = valid_delegate_msg h delegator
    validate_staking_msg h (msg_begin_redelegate delegator) = valid_redelegate_msg h delegator
    validate_staking_msg h (msg_exec msgs) = valid_authz h msgs
    validate_staking_msg h msg_other = pure tt

    -- validAuthz, and ValidateStakingMsgs on the messages of a transaction, which are all readable.
    pub valid_authz : ℤ → Msgs → Action (Unit {0})
    valid_authz h no_msgs = pure tt
    valid_authz h (readable msg rest) = do validate_staking_msg h msg; valid_authz h rest
    valid_authz h (unreadable rest) = raise unreadable_message

  -- AnteHandle, with the handlers that come next.
  unfoldable pub ante_handle : ℤ → Msgs → Bool → Action (Unit {0}) → Action (Unit {0})
  ante_handle h msgs simulate next s = if simulate then next s else (valid_authz h msgs >> next) s
