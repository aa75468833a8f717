-- ===== src/TransferMiddleware/Registry.antt =====
-- The state of x/transfermiddleware (x/transfermiddleware/types/keys.go): three indices over the
-- token infos, the relayers' allow list and the remove list, each under a key prefix of its own.
use composable_centauri.Base.{ℕ, []}
use composable_centauri.Base.Int.{ℤ}
use composable_centauri.Base.Bytes.{Bytes}
use composable_centauri.Kv.{Kv}

pub record ParachainIbcTokenInfo : Type 0 where
  pub ibc_denom : Bytes
  pub channel_id : Bytes
  pub native_denom : Bytes
  pub asset_id : Bytes

-- The info that a failed read leaves.
abbrev pub no_info : ParachainIbcTokenInfo
no_info = record { ibc_denom = []; channel_id = []; native_denom = []; asset_id = [] }

-- The time is in nanoseconds.
pub record RemoveParachainIbcTokenInfo : Type 0 where
  pub native_denom : Bytes
  pub remove_time : ℤ

pub data Error : Type 0 where
  invalid_signer duplicate_asset_id duplicate_ibc_denom duplicate_native_denom : Error
  key_not_found not_registered_native_denom already_registered : Error

pub record Registry ⦃kv : Kv⦄ : Type 0 where
  -- the address that may change the registry, and Params.Duration in nanoseconds
  pub authority : Bytes
  pub duration : ℤ
  -- 0x01, 0x02 and 0x03
  pub info_by_native_denom : kv.Store ParachainIbcTokenInfo
  pub info_by_asset_id : kv.Store ParachainIbcTokenInfo
  pub native_denom_by_ibc_denom : kv.Store Bytes
  -- 0x04 and 0x05
  pub rly_addresses : kv.Store ℕ
  pub remove_list : kv.Store RemoveParachainIbcTokenInfo
