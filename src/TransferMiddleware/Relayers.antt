-- ===== src/TransferMiddleware/Relayers.antt =====
-- The ante handler that lets only allowed relayers update a wasm light client (app/ante/ibc_ante.go).
pub mod Depth
use composable_centauri.Base.{Bool, true, false, not, ◌&&◌, if◌then◌else◌}
use composable_centauri.Base.Bytes.{Bytes, bytes, eq_bytes}
use composable_centauri.Base.Exec.{Result, ok, err}
use composable_centauri.Kv.{Kv}
use composable_centauri.TransferMiddleware.Registry.{Registry}
use composable_centauri.TransferMiddleware.Keeper.{has_allow_rly_address}

pub data Denial : Type 0 where
  permission_denied unreadable_message : Denial

-- The messages that the handler tells apart: an update of a client, by the type of its client message
-- and its signer, the execution of packed messages, and every other one. A packed message is what
-- UnpackAny makes of it, or unreadable.
mutual
  pub data Msg : Type 0 where
    msg_update_client : Bytes → Bytes → Msg
    msg_exec : Msgs → Msg
    msg_other : Msg

  pub data Msgs : Type 0 where
    no_msgs : Msgs
    readable : Msg → Msgs → Msgs
    unreadable : Msgs → Msgs

abbrev pub wasm_header : Bytes
wasm_header = bytes "/ibc.lightclients.wasm.v1.Header"

module _ ⦃kv : Kv⦄ where
  -- validMsg
  unfoldable pub valid_msg : Registry → Msg → Result Denial (Unit {0})
  valid_msg r (msg_update_client type_url signer) =
      if eq_bytes type_url wasm_header && not (has_allow_rly_address signer r)
      then err permission_denied
      else ok tt
  valid_msg r (msg_exec msgs) = ok tt
  valid_msg r msg_other = ok tt

  -- validAuthz
  unfoldable pub valid_authz : Registry → Msgs → Result Denial (Unit {0})
  unfolding valid_msg
  valid_authz r no_msgs = ok tt
  valid_authz r (readable msg rest) =
      let others : Result Denial (Unit {0}) = valid_authz r rest in
      elim (valid_msg r msg) [ err e ↦ err e | ok _ ↦ others ]
  valid_authz r (unreadable rest) = err unreadable_message

  -- A message of a transaction, in ValidateIBCUpdateClientMsg.
  unfoldable pub valid_tx_msg : Registry → Msg → Result Denial (Unit {0})
  unfolding valid_msg valid_authz
  valid_tx_msg r (msg_exec msgs) = valid_authz r msgs
  valid_tx_msg r (msg_update_client type_url signer) =
      valid_msg r (msg_update_client type_url signer)
  valid_tx_msg r msg_other = valid_msg r msg_other

  -- ValidateIBCUpdateClientMsg. The messages of a transaction are all readable.
  unfoldable pub validate_ibc_update_client_msg : Registry → Msgs → Result Denial (Unit {0})
  unfolding valid_tx_msg
  validate_ibc_update_client_msg r no_msgs = ok tt
  validate_ibc_update_client_msg r (readable msg rest) =
      let others : Result Denial (Unit {0}) = validate_ibc_update_client_msg r rest in
      elim (valid_tx_msg r msg) [ err e ↦ err e | ok _ ↦ others ]
  validate_ibc_update_client_msg r (unreadable rest) = err unreadable_message

  -- AnteHandle, with what comes next.
  unfoldable pub ante_handle :
      Registry → Msgs → Bool → Result Denial (Unit {0}) → Result Denial (Unit {0})
  unfolding validate_ibc_update_client_msg
  ante_handle r msgs simulate next =
      if simulate
      then next
      else elim (validate_ibc_update_client_msg r msgs) [ err e ↦ err e | ok _ ↦ next ]
