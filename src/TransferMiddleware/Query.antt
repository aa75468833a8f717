-- ===== src/TransferMiddleware/Query.antt =====
-- The queries and the stateless checks of the messages of x/transfermiddleware
-- (keeper/grpc_query.go, types/msg.go and the reads of keeper/keeper.go that others call).
use composable_centauri.Base.{
  ℕ, Bool, true, false, not, none, some, List, [], ◌∷◌, ◌++◌, if◌then◌else◌,
}
use composable_centauri.Base.Bytes.{Bytes}
use composable_centauri.Base.Exec.{Result, err, ensure}
use composable_centauri.Kv.{Kv, has}
use composable_centauri.Sdk.{Sdk}
use composable_centauri.Fees.Config.{Coin}
use composable_centauri.TransferMiddleware.Registry.{Registry, ParachainIbcTokenInfo}
use composable_centauri.TransferMiddleware.Keeper.{get_parachain_ibc_token_info_by_native_denom}
use composable_centauri.TransferMiddleware.Host.{Host}
use composable_centauri.TransferMiddleware.Genesis.{iterate_para_token_infos}

pub data MsgError : Type 0 where
  invalid_authority invalid_channel invalid_ibc_denom : MsgError

module _ ⦃sdk : Sdk⦄ where
  abbrev is_address : Bytes → Bool
  is_address address = elim (sdk.acc_address_from_bech32 address) [ none ↦ false | some a ↦ true ]

  -- MsgAddParachainIBCTokenInfo.ValidateBasic; ValidateIBCDenom is a parameter, true where it
  -- returns no error.
  unfoldable pub validate_add_parachain_ibc_token_info :
      (Bytes → Bool) → Bytes → Bytes → Bytes → Result MsgError (Unit {0})
  validate_add_parachain_ibc_token_info validate_ibc_denom authority channel_id ibc_denom =
      if not (is_address authority)
      then err invalid_authority
      else if not (sdk.is_channel_identifier channel_id)
      then err invalid_channel
      else ensure (validate_ibc_denom ibc_denom) invalid_ibc_denom

  -- MsgRemoveParachainIBCTokenInfo.ValidateBasic
  unfoldable pub validate_remove_parachain_ibc_token_info : Bytes → Result MsgError (Unit {0})
  validate_remove_parachain_ibc_token_info authority =
      ensure (is_address authority) invalid_authority

  -- MsgAddRlyAddress.ValidateBasic
  unfoldable pub validate_add_rly_address : Bytes → Bytes → Result MsgError (Unit {0})
  validate_add_rly_address authority rly_address =
      if not (is_address authority)
      then err invalid_authority
      else ensure (is_address rly_address) invalid_authority

module _ ⦃kv : Kv⦄ where
  -- HasParachainIBCTokenInfoByAssetID
  unfoldable pub has_parachain_ibc_token_info_by_asset_id : Bytes → Registry → Bool
  has_parachain_ibc_token_info_by_asset_id asset_id r = has asset_id r.info_by_asset_id

  -- ParaTokenInfo
  unfoldable pub para_token_info : Bytes → Registry → ParachainIbcTokenInfo
  para_token_info native_denom r = get_parachain_ibc_token_info_by_native_denom native_denom r

  -- IterateAllowRlyAddress: the callback sees the keys, and may stop the loop.
  unfoldable pub iterate_keys : {A : Type 0} → (Bytes → A → Bool × A) → List (Bytes × ℕ) → A → A
  iterate_keys cb [] a = a
  iterate_keys cb ((key, _) ∷ entries) a =
      let (stop, b) = cb key a in let rest = iterate_keys cb entries b in if stop then b else rest

  unfoldable pub iterate_allow_rly_address :
      {A : Type 0} → (Bytes → A → Bool × A) → Registry → A → A
  unfolding iterate_keys
  iterate_allow_rly_address cb r a = iterate_keys cb (kv.entries r.rly_addresses) a

  module _ ⦃host : Host⦄ where
    -- EscrowAddress
    unfoldable pub escrow_address : Bytes → Bytes
    escrow_address channel_id = host.get_escrow_address host.port_id channel_id

    -- GetTotalEscrowedToken: both balances of each escrow account.
    unfoldable pub get_total_escrowed_token : Registry → host.World → List Coin
    unfolding iterate_para_token_infos escrow_address
    get_total_escrowed_token r w =
        iterate_para_token_infos
          (λ index info coins.
            let holder : Bytes = escrow_address info.channel_id in
            let escrow_ibc_coin : Coin = record {
              denom = info.ibc_denom;
              amount = host.get_balance holder info.ibc_denom w;
            } in
            let escrow_native_coin : Coin = record {
              denom = info.native_denom;
              amount = host.get_balance holder info.native_denom w;
            } in
            (false, coins ++ escrow_ibc_coin ∷ escrow_native_coin ∷ []))
          r []
