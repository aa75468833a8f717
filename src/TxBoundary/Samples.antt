-- ===== src/TxBoundary/Samples.antt =====
-- An account that delegates three times in nine blocks.
use composable_centauri.Base.{
  ℕ, ◌≡◌, ◌≤◌, ◌*◌, ◌+◌, ◌-◌, refl, Bool, true, false, none, some, List, [], ◌∷◌, arith,
}
use composable_centauri.Base.Int.{pos}
use composable_centauri.Base.Bytes.{bytes, eq_bytes_refl}
use composable_centauri.Kv.Assoc.{assoc_kv}
use composable_centauri.Sdk.{Sdk}
use composable_centauri.TxBoundary.Keeper.{State, LimitPerAddr, default_boundary}
use composable_centauri.TxBoundary.Ante.{
  Msgs, msg_delegate, msg_exec, no_msgs, readable, valid_authz, valid_redelegate_msg,
}
use composable_centauri.TxBoundary.Ante.Nested.{flatten, valid_authz-flatten}
use composable_centauri.TxBoundary.Generation.{valid_redelegate_msg-generation}
use composable_centauri.TxBoundary.Rate.{limit}
use composable_centauri.TxBoundary.Rate.Account.{accepted, accepted-rate}
use composable_centauri.TxBoundary.Rate.Account.Updates.{Holds}

instance abbrev sample_sdk : Sdk
sample_sdk = record {
  acc_address_from_bech32 = λ b. some b;
  is_channel_identifier = λ b. true;
  unmarshal_packet_data = λ payload. none;
  unmarshal_acknowledgement = λ payload. none;
  new_int_from_string = λ b. none;
  parse_denom_trace = λ d. record { path = []; base_denom = d };
  ibc_denom = λ t. t.base_denom;
  receiver_chain_is_source = λ p c d. false;
  get_denom_prefix = λ p c. [];
}

abbrev three_sent : State
three_sent = record {
  delegate_boundary = some default_boundary;
  redelegate_boundary = some default_boundary;
  limits = assoc_kv.set (bytes "alice") (limit 3 0 10) assoc_kv.empty;
}

three_sent-Holds : Holds (bytes "alice") default_boundary default_boundary 3 0 10 three_sent
three_sent-Holds = record {
  found = ground (
    arith,
    assoc_kv.get-set (bytes "alice") (bytes "alice") (limit 3 0 10)
        (assoc_kv.empty {V = LimitPerAddr}),
    eq_bytes_refl (bytes "alice"),
  );
  bound = refl;
  rebound = refl;
}

abbrev four_messages : List (ℕ × Bool)
four_messages = (12, true) ∷ (12, true) ∷ (13, false) ∷ (19, true) ∷ []

accepted-rate_example :
    5 * accepted (bytes "alice") four_messages three_sent + 5 * 3 ≤ 5 * 5 + (19 - 10)
accepted-rate_example =
    accepted-rate (bytes "alice") (bytes "alice") default_boundary default_boundary 19 four_messages
      3 0 10 three_sent refl (omega arith) (omega arith) (omega arith) (omega arith) (omega arith)
      (omega arith) (omega arith)
      (omega arith, (omega arith, (omega arith, (omega arith, omega arith)))) three_sent-Holds

abbrev packed : Msgs
packed =
    readable
      (msg_exec (
        readable (msg_delegate (bytes "alice"))
          (readable (msg_exec (readable (msg_delegate (bytes "bob")) no_msgs)) no_msgs)))
      no_msgs

valid_authz-flatten_example :
    valid_authz (pos 12) packed three_sent ≡ valid_authz (pos 12) (flatten packed) three_sent
valid_authz-flatten_example = valid_authz-flatten (pos 12) packed three_sent

valid_redelegate_msg-generation_example :
    let other = record three_sent {
      redelegate_boundary = some (record default_boundary { blocks_per_generation = 1000 });
    } in
    ((valid_redelegate_msg (pos 15) (bytes "alice") other).0
      ≡ (valid_redelegate_msg (pos 15) (bytes "alice") three_sent).0)
    × ((valid_redelegate_msg (pos 15) (bytes "alice") other).1.limits
        ≡ (valid_redelegate_msg (pos 15) (bytes "alice") three_sent).1.limits)
valid_redelegate_msg-generation_example =
    valid_redelegate_msg-generation (pos 15) (bytes "alice") default_boundary 1000 three_sent refl
