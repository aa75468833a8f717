-- ===== src/Migration/Wasm.antt =====
-- The migration of the stored codes and contracts (bech32-migration/wasm/wasm.go).
use composable_centauri.Base.{List, map}
use composable_centauri.Base.Bytes.{Bytes}
use composable_centauri.Base.Exec.{ok, Exec, ◌>>◌}
use composable_centauri.Kv.{Kv}
use composable_centauri.Migration.Addresses.{Panic, Bech32, safe_convert_address}
use composable_centauri.Migration.Stores.{iterate_store_by_prefix}
use composable_centauri.Migration.Modules.{on_part}

pub record CodeInfo (Rest : Type 0) : Type 0 where
  pub creator : Bytes
  pub instantiate_address : Bytes
  pub instantiate_addresses : List Bytes
  pub rest : Rest

pub record ContractInfo (Rest : Type 0) : Type 0 where
  pub creator : Bytes
  pub admin : Bytes
  pub rest : Rest

-- The store of the wasm module, with a field for each prefix that is migrated
pub record WasmStore ⦃kv : Kv⦄ (Rest : Type 0) : Type 0 where
  pub codes : kv.Store (CodeInfo Rest)
  pub contracts : kv.Store (ContractInfo Rest)

module _ ⦃bech32 : Bech32⦄ {Rest : Type 0} where
  unfoldable pub convert_code_info : CodeInfo Rest → CodeInfo Rest
  convert_code_info c = record c {
    creator = safe_convert_address c.creator;
    instantiate_address = safe_convert_address c.instantiate_address;
    instantiate_addresses = map safe_convert_address c.instantiate_addresses;
  }

  unfoldable pub convert_contract_info : ContractInfo Rest → ContractInfo Rest
  convert_contract_info c = record c {
    creator = safe_convert_address c.creator;
    admin = safe_convert_address c.admin;
  }

module _ ⦃kv : Kv⦄ ⦃bech32 : Bech32⦄ {Rest : Type 0} where
  -- migrateCodeInfo
  unfoldable pub migrate_code_info : Exec Panic (WasmStore Rest) (Unit {0})
  unfolding iterate_store_by_prefix convert_code_info
  migrate_code_info =
      on_part (λ s. s.codes) (λ t s. record s { codes = t })
        (iterate_store_by_prefix (λ c. ok (convert_code_info c)))

  -- migrateContractInfo
  unfoldable pub migrate_contract_info : Exec Panic (WasmStore Rest) (Unit {0})
  unfolding iterate_store_by_prefix convert_contract_info
  migrate_contract_info =
      on_part (λ s. s.contracts) (λ t s. record s { contracts = t })
        (iterate_store_by_prefix (λ c. ok (convert_contract_info c)))

  -- MigrateAddressBech32
  unfoldable pub migrate_wasm : Exec Panic (WasmStore Rest) (Unit {0})
  unfolding migrate_code_info migrate_contract_info
  migrate_wasm = do migrate_code_info; migrate_contract_info
