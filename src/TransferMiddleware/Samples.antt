-- ===== src/TransferMiddleware/Samples.antt =====
-- The registry at concrete tokens, senders and times.
mod Bank
mod Relay
mod Fees
use composable_centauri.Base.{◌≡◌, refl, true, none, arith, if◌then◌else◌}
use composable_centauri.Base.Int.{pos, ◌+ℤ◌}
use composable_centauri.Base.Bytes.{Bytes, bytes, eq_bytes}
use composable_centauri.Kv.{lookup}
use composable_centauri.Kv.Assoc
use composable_centauri.Kv.Assoc.{assoc_kv, no_entries}
use composable_centauri.TransferMiddleware.Registry.{
  Registry, ParachainIbcTokenInfo, RemoveParachainIbcTokenInfo,
}
use composable_centauri.TransferMiddleware.Keeper.{
  add_parachain_ibc_token_info, remove_parachain_ibc_token_info, begin_blocker,
  add_parachain_ibc_info, add_parachain_ibc_info_to_remove_list,
}
use composable_centauri.TransferMiddleware.Consistency.{IsConsistent}
use composable_centauri.TransferMiddleware.Consistency.Reach.{
  adds, removes, blocks, here, next, Reach-IsConsistent,
}
use composable_centauri.TransferMiddleware.Removal.{
  IsKeyed, is_due, Reach-IsKeyed, begin_blocker-registered_again,
}
use composable_centauri.TransferMiddleware.Removal.Indices.{
  Removes, SameRest, begin_blocker-Removes,
}
use composable_centauri.Base.Exec.{ok}
use composable_centauri.TransferMiddleware.Keeper.{has_allow_rly_address, set_allow_rly_address}
use composable_centauri.TransferMiddleware.Relayers.{
  Msgs, msg_update_client, msg_exec, no_msgs, readable, wasm_header, validate_ibc_update_client_msg,
  valid_tx_msg, valid_authz, valid_msg,
}
use composable_centauri.TransferMiddleware.Relayers.Depth.{
  packed, first, validate_ibc_update_client_msg-allowed,
  validate_ibc_update_client_msg-packed_twice,
}

abbrev pub no_tokens : Registry
no_tokens = record {
  authority = bytes "gov";
  duration = pos 10;
  info_by_native_denom = assoc_kv.empty;
  info_by_asset_id = assoc_kv.empty;
  native_denom_by_ibc_denom = assoc_kv.empty;
  rly_addresses = assoc_kv.empty;
  remove_list = assoc_kv.empty;
}

pub no_tokens-IsConsistent : IsConsistent no_tokens
no_tokens-IsConsistent = record {
  native = λ n i e. absurd (ground (arith, assoc_kv.get-empty {V = ParachainIbcTokenInfo} n));
  asset = λ a i e. absurd (ground (arith, assoc_kv.get-empty {V = ParachainIbcTokenInfo} a));
  ibc_known = λ d n e. absurd (ground (arith, assoc_kv.get-empty {V = Bytes} d));
  ibc_same = λ d n i e. absurd (ground (arith, assoc_kv.get-empty {V = Bytes} d));
}

abbrev pub one_token : Registry
one_token =
    (add_parachain_ibc_token_info (bytes "gov") (bytes "ibc/A") (bytes "channel-1") (bytes "ppica")
      (bytes "1") no_tokens).1

pub one_token-IsConsistent : IsConsistent one_token
one_token-IsConsistent =
    Reach-IsConsistent no_tokens-IsConsistent (
      next here
        (adds (bytes "gov") (bytes "ibc/A") (bytes "channel-1") (bytes "ppica") (bytes "1")))

-- The token's removal is requested at 100 and due at 110.
abbrev leaving : Registry
leaving = (remove_parachain_ibc_token_info (pos 100) (bytes "gov") (bytes "ppica") one_token).1

Reach-IsConsistent_example : IsConsistent (begin_blocker (pos 111) leaving)
Reach-IsConsistent_example = Reach-IsConsistent no_tokens-IsConsistent (
    next
      (next
        (next here
          (adds (bytes "gov") (bytes "ibc/A") (bytes "channel-1") (bytes "ppica") (bytes "1")))
        (removes (pos 100) (bytes "gov") (bytes "ppica")))
      (blocks (pos 111)))

no_tokens-IsKeyed : IsKeyed no_tokens
no_tokens-IsKeyed n e h =
    absurd (ground (arith, assoc_kv.get-empty {V = RemoveParachainIbcTokenInfo} n))

leaving-IsKeyed : IsKeyed leaving
leaving-IsKeyed = Reach-IsKeyed no_tokens-IsKeyed (
    next
      (next here
        (adds (bytes "gov") (bytes "ibc/A") (bytes "channel-1") (bytes "ppica") (bytes "1")))
      (removes (pos 100) (bytes "gov") (bytes "ppica")))

leaving-IsConsistent : IsConsistent leaving
leaving-IsConsistent = Reach-IsConsistent no_tokens-IsConsistent (
    next
      (next here
        (adds (bytes "gov") (bytes "ibc/A") (bytes "channel-1") (bytes "ppica") (bytes "1")))
      (removes (pos 100) (bytes "gov") (bytes "ppica")))

begin_blocker-Removes_example :
    Removes
      (λ n. is_due (pos 111) (assoc_kv.get n leaving.remove_list))
      leaving
      (begin_blocker (pos 111) leaving)
    × SameRest leaving (begin_blocker (pos 111) leaving)
begin_blocker-Removes_example =
    begin_blocker-Removes (pos 111) leaving leaving-IsKeyed leaving-IsConsistent

leaving-due : is_due (pos 111) (assoc_kv.get (bytes "ppica") leaving.remove_list) ≡ true
unfolding remove_parachain_ibc_token_info add_parachain_ibc_token_info add_parachain_ibc_info
    add_parachain_ibc_info_to_remove_list lookup Assoc.get Assoc.set Assoc.insert Assoc.without
    Assoc.lt_bytes no_entries eq_bytes ◌+ℤ◌
leaving-due = refl

begin_blocker-registered_again_example :
    let removed = begin_blocker (pos 111) leaving in
    let again =
      (add_parachain_ibc_token_info
        (bytes "gov")
        (bytes "ibc/B")
        (bytes "channel-1")
        (bytes "ppica")
        (bytes "1")
        removed).1 in
    assoc_kv.get (bytes "ppica") (begin_blocker (pos 120) again).info_by_native_denom ≡ none
begin_blocker-registered_again_example =
    begin_blocker-registered_again (pos 111) (pos 120) (bytes "gov") (bytes "ibc/B")
      (bytes "channel-1") (bytes "ppica") (bytes "1") leaving leaving-IsKeyed (ground arith)
      leaving-due

-- An update by a relayer who is allowed, packed once.
abbrev allowing : Registry
allowing = set_allow_rly_address (bytes "relayer") one_token

abbrev relayed : Msgs
relayed =
    readable (msg_exec (readable (msg_update_client wasm_header (bytes "relayer")) no_msgs)) no_msgs

validate_ibc_update_client_msg-allowed_example :
    has_allow_rly_address (bytes "relayer") allowing ≡ true
unfolding validate_ibc_update_client_msg valid_tx_msg valid_authz valid_msg set_allow_rly_address
    has_allow_rly_address eq_bytes Assoc.get Assoc.set lookup add_parachain_ibc_token_info
    no_entries
validate_ibc_update_client_msg-allowed_example =
    validate_ibc_update_client_msg-allowed allowing (bytes "relayer") relayed refl (packed first)

validate_ibc_update_client_msg-packed_twice_example :
    validate_ibc_update_client_msg no_tokens
      (readable (msg_exec (readable (msg_exec relayed) no_msgs)) no_msgs)
    ≡ validate_ibc_update_client_msg no_tokens no_msgs
validate_ibc_update_client_msg-packed_twice_example =
    validate_ibc_update_client_msg-packed_twice no_tokens relayed no_msgs
