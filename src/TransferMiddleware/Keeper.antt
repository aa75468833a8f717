-- ===== src/TransferMiddleware/Keeper.antt =====
-- The keeper's operations on the registry (x/transfermiddleware/keeper/keeper.go, msg_server.go and
-- abci.go).
use composable_centauri.Base.{Bool, not, List, [], ◌∷◌, if◌then◌else◌}
use composable_centauri.Base.Int.{ℤ, ◌+ℤ◌, ltb_ℤ}
use composable_centauri.Base.Bytes.{Bytes, eq_bytes}
use composable_centauri.Base.Exec.{Exec, pure, gets, modify, raise_if, ◌>>=◌, ◌>>◌}
use composable_centauri.Kv.{Kv, has, get_or}
use composable_centauri.TransferMiddleware.Registry.{
  Registry, ParachainIbcTokenInfo, no_info, RemoveParachainIbcTokenInfo, Error, invalid_signer,
  duplicate_asset_id, duplicate_ibc_denom, duplicate_native_denom, key_not_found,
  not_registered_native_denom, already_registered,
}

module _ ⦃kv : Kv⦄ where
  abbrev pub Action : Type 0 → Type 0
  Action A = Exec Error Registry A

  -- AddParachainIBCInfo
  unfoldable pub add_parachain_ibc_info : Bytes → Bytes → Bytes → Bytes → Action (Unit {0})
  add_parachain_ibc_info ibc_denom channel_id native_denom asset_id = do
    raise_if (← gets (λ r. has asset_id r.info_by_asset_id)) duplicate_asset_id
    raise_if (← gets (λ r. has ibc_denom r.native_denom_by_ibc_denom)) duplicate_ibc_denom
    raise_if (← gets (λ r. has native_denom r.info_by_native_denom)) duplicate_native_denom
    let info : ParachainIbcTokenInfo = record {
      ibc_denom = ibc_denom;
      channel_id = channel_id;
      native_denom = native_denom;
      asset_id = asset_id;
    }
    modify λ r. record r {
      info_by_native_denom = kv.set native_denom info r.info_by_native_denom;
      info_by_asset_id = kv.set asset_id info r.info_by_asset_id;
      native_denom_by_ibc_denom = kv.set ibc_denom native_denom r.native_denom_by_ibc_denom;
    }

  -- AddParachainIBCInfoToRemoveList, at a block time; it returns the time of the removal.
  unfoldable pub add_parachain_ibc_info_to_remove_list : ℤ → Bytes → Action ℤ
  add_parachain_ibc_info_to_remove_list block_time native_denom = do
    remove_time ← gets (λ r. block_time +ℤ r.duration)
    raise_if (← gets (λ r. not (has native_denom r.info_by_native_denom))) key_not_found
    modify λ r. record r {
      remove_list =
          kv.set native_denom (record { native_denom = native_denom; remove_time = remove_time })
            r.remove_list;
    }
    pure remove_time

  -- HasParachainIBCTokenInfoByNativeDenom, and hasParachainIBCTokenInfo
  abbrev pub has_parachain_ibc_token_info_by_native_denom : Bytes → Registry → Bool
  has_parachain_ibc_token_info_by_native_denom native_denom r =
      has native_denom r.info_by_native_denom

  -- GetParachainIBCTokenInfoByNativeDenom
  abbrev pub get_parachain_ibc_token_info_by_native_denom : Bytes → Registry → ParachainIbcTokenInfo
  get_parachain_ibc_token_info_by_native_denom native_denom r =
      get_or native_denom r.info_by_native_denom no_info

  -- GetParachainIBCTokenInfoByAssetID
  abbrev pub get_parachain_ibc_token_info_by_asset_id : Bytes → Registry → ParachainIbcTokenInfo
  get_parachain_ibc_token_info_by_asset_id asset_id r = get_or asset_id r.info_by_asset_id no_info

  -- GetNativeDenomByIBCDenomSecondaryIndex
  abbrev pub get_native_denom_by_ibc_denom_secondary_index : Bytes → Registry → Bytes
  get_native_denom_by_ibc_denom_secondary_index ibc_denom r =
      get_or ibc_denom r.native_denom_by_ibc_denom []

  -- RemoveParachainIBCInfo
  unfoldable pub remove_parachain_ibc_info : Bytes → Action (Unit {0})
  remove_parachain_ibc_info native_denom = do
    raise_if (← gets (λ r. not (has native_denom r.info_by_native_denom)))
        not_registered_native_denom
    info ← gets (get_parachain_ibc_token_info_by_native_denom native_denom)
    modify λ r. record r {
      info_by_native_denom = kv.delete native_denom r.info_by_native_denom;
      info_by_asset_id = kv.delete info.asset_id r.info_by_asset_id;
      native_denom_by_ibc_denom = kv.delete info.ibc_denom r.native_denom_by_ibc_denom;
    }

  -- The callback of BeginBlocker on one entry of the remove list: the error of a failed removal is
  -- dropped.
  unfoldable pub remove_if_due : ℤ → Bytes × RemoveParachainIbcTokenInfo → Registry → Registry
  remove_if_due block_time entry r =
      if ltb_ℤ entry.1.remove_time block_time
      then (remove_parachain_ibc_info entry.1.native_denom r).1
      else r

  -- IterateRemoveListInfo with that callback, which never stops the iteration.
  unfoldable pub iterate_remove_list :
      ℤ → List (Bytes × RemoveParachainIbcTokenInfo) → Registry → Registry
  iterate_remove_list block_time [] r = r
  iterate_remove_list block_time (entry ∷ rest) r =
      iterate_remove_list block_time rest (remove_if_due block_time entry r)

  -- BeginBlocker
  unfoldable pub begin_blocker : ℤ → Registry → Registry
  begin_blocker block_time r = iterate_remove_list block_time (kv.entries r.remove_list) r

  -- SetAllowRlyAddress, DeleteAllowRlyAddress and HasAllowRlyAddress
  unfoldable pub set_allow_rly_address : Bytes → Registry → Registry
  set_allow_rly_address rly_address r = record r {
    rly_addresses = kv.set rly_address 1 r.rly_addresses;
  }

  unfoldable pub delete_allow_rly_address : Bytes → Registry → Registry
  delete_allow_rly_address rly_address r = record r {
    rly_addresses = kv.delete rly_address r.rly_addresses;
  }

  unfoldable pub has_allow_rly_address : Bytes → Registry → Bool
  has_allow_rly_address rly_address r = has rly_address r.rly_addresses

  abbrev check_authority : Bytes → Action (Unit {0})
  check_authority sender = do
    raise_if (← gets (λ r. not (eq_bytes r.authority sender))) invalid_signer

  -- The message handlers of msg_server.go: the sender, then the fields of the request.
  unfoldable pub add_parachain_ibc_token_info :
      Bytes → Bytes → Bytes → Bytes → Bytes → Action (Unit {0})
  unfolding add_parachain_ibc_info
  add_parachain_ibc_token_info sender ibc_denom channel_id native_denom asset_id = do
    check_authority sender
    add_parachain_ibc_info ibc_denom channel_id native_denom asset_id

  unfoldable pub remove_parachain_ibc_token_info : ℤ → Bytes → Bytes → Action (Unit {0})
  unfolding add_parachain_ibc_info_to_remove_list
  remove_parachain_ibc_token_info block_time sender native_denom = do
    check_authority sender
    add_parachain_ibc_info_to_remove_list block_time native_denom
    pure tt

  unfoldable pub add_rly_address : Bytes → Bytes → Action (Unit {0})
  unfolding set_allow_rly_address has_allow_rly_address
  add_rly_address sender rly_address = do
    check_authority sender
    raise_if (← gets (has_allow_rly_address rly_address)) already_registered
    modify (set_allow_rly_address rly_address)
