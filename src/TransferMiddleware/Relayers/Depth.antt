-- ===== src/TransferMiddleware/Relayers/Depth.antt =====
-- How deep the handler looks for updates of a wasm client.
use composable_centauri.Base.{◌≡◌, refl, true, arith}
use composable_centauri.Base.Bytes.{Bytes, eq_bytes_refl}
use composable_centauri.Base.Exec.{Result, ok, err}
use composable_centauri.Kv.{Kv}
use composable_centauri.TransferMiddleware.Registry.{Registry}
use composable_centauri.TransferMiddleware.Keeper.{has_allow_rly_address}
use composable_centauri.TransferMiddleware.Relayers.{
  Denial, Msg, Msgs, msg_update_client, msg_exec, no_msgs, readable, unreadable, wasm_header,
  valid_msg, valid_authz, valid_tx_msg, validate_ibc_update_client_msg,
}

-- A signer updates a wasm client in one of the messages themselves.
pub data Updates (signer : Bytes) : Msgs → Type 0 where
  first : {rest : Msgs} → Updates signer (readable (msg_update_client wasm_header signer) rest)
  after : {msg : Msg} {rest : Msgs} → Updates signer rest → Updates signer (readable msg rest)
  after_unreadable : {rest : Msgs} → Updates signer rest → Updates signer (unreadable rest)

-- A signer updates a wasm client in one of the messages, or in one that is packed in one of them.
pub data UpdatesWithin (signer : Bytes) : Msgs → Type 0 where
  outside : {msgs : Msgs} → Updates signer msgs → UpdatesWithin signer msgs
  packed :
      {inner rest : Msgs}
      → Updates signer inner
      → UpdatesWithin signer (readable (msg_exec inner) rest)
  later :
      {msg : Msg} {rest : Msgs}
      → UpdatesWithin signer rest
      → UpdatesWithin signer (readable msg rest)

module _ ⦃kv : Kv⦄ where
  valid_msg-allowed :
      (r : Registry) (signer : Bytes)
      → valid_msg r (msg_update_client wasm_header signer) ≡ ok tt
      → has_allow_rly_address signer r ≡ true
  unfolding valid_msg
  valid_msg-allowed r signer e = ground (arith, eq_bytes_refl wasm_header)

  both-ok :
      (x y : Result Denial (Unit {0}))
      → elim x [ err e ↦ err e | ok _ ↦ y ] ≡ ok tt
      → (x ≡ ok tt) × (y ≡ ok tt)
  both-ok (ok tt) y e = (refl, e)
  both-ok (err x) y e = absurd cc

  authz-both :
      (r : Registry) (msg : Msg) (rest : Msgs)
      → valid_authz r (readable msg rest) ≡ ok tt
      → (valid_msg r msg ≡ ok tt) × (valid_authz r rest ≡ ok tt)
  unfolding valid_authz
  authz-both r msg rest e = both-ok (valid_msg r msg) (valid_authz r rest) e

  tx-both :
      (r : Registry) (msg : Msg) (rest : Msgs)
      → validate_ibc_update_client_msg r (readable msg rest) ≡ ok tt
      → (valid_tx_msg r msg ≡ ok tt) × (validate_ibc_update_client_msg r rest ≡ ok tt)
  unfolding validate_ibc_update_client_msg
  tx-both r msg rest e = both-ok (valid_tx_msg r msg) (validate_ibc_update_client_msg r rest) e

  valid_authz-allowed :
      (r : Registry) (signer : Bytes) (msgs : Msgs)
      → valid_authz r msgs ≡ ok tt
      → Updates signer msgs
      → has_allow_rly_address signer r ≡ true
  unfolding valid_authz
  valid_authz-allowed r signer _ e (first {rest}) =
      let (head, _) = authz-both r (msg_update_client wasm_header signer) rest e in
      valid_msg-allowed r signer head
  valid_authz-allowed r signer _ e (after {msg} {rest} u) =
      let (_, tail) = authz-both r msg rest e in valid_authz-allowed r signer rest tail u
  valid_authz-allowed r signer _ e (after_unreadable u) = absurd cc

  direct-allowed :
      (r : Registry) (signer : Bytes) (msgs : Msgs)
      → validate_ibc_update_client_msg r msgs ≡ ok tt
      → Updates signer msgs
      → has_allow_rly_address signer r ≡ true
  unfolding validate_ibc_update_client_msg valid_tx_msg
  direct-allowed r signer _ e (first {rest}) =
      let (head, _) = tx-both r (msg_update_client wasm_header signer) rest e in
      valid_msg-allowed r signer head
  direct-allowed r signer _ e (after {msg} {rest} u) =
      let (_, tail) = tx-both r msg rest e in direct-allowed r signer rest tail u
  direct-allowed r signer _ e (after_unreadable u) = absurd cc

  -- A transaction that the handler accepts updates a wasm client, in a message or in one that is
  -- packed once in an execution, only for signers who are allowed relayers.
  pub validate_ibc_update_client_msg-allowed :
      (r : Registry) (signer : Bytes) (msgs : Msgs)
      → validate_ibc_update_client_msg r msgs ≡ ok tt
      → UpdatesWithin signer msgs
      → has_allow_rly_address signer r ≡ true
  unfolding valid_tx_msg
  validate_ibc_update_client_msg-allowed r signer msgs e (outside u) =
      direct-allowed r signer msgs e u
  validate_ibc_update_client_msg-allowed r signer _ e (packed {inner} {rest} u) =
      let (head, _) = tx-both r (msg_exec inner) rest e in valid_authz-allowed r signer inner head u
  validate_ibc_update_client_msg-allowed r signer _ e (later {msg} {rest} u) =
      let (_, tail) = tx-both r msg rest e in
      validate_ibc_update_client_msg-allowed r signer rest tail u

  -- Messages that are packed in an execution within an execution are not looked at: whoever signs
  -- them, they change nothing in whether the transaction is accepted.
  pub validate_ibc_update_client_msg-packed_twice :
      (r : Registry) (hidden msgs : Msgs)
      → validate_ibc_update_client_msg r
          (readable (msg_exec (readable (msg_exec hidden) no_msgs)) msgs)
        ≡ validate_ibc_update_client_msg r msgs
  unfolding validate_ibc_update_client_msg valid_tx_msg valid_authz valid_msg
  validate_ibc_update_client_msg-packed_twice r hidden msgs = refl
