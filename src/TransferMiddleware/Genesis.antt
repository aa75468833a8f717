-- ===== src/TransferMiddleware/Genesis.antt =====
-- The genesis state of x/transfermiddleware (keeper/genesis.go, types/genesis.go, types/info.go and
-- types/params.go).
pub mod RoundTrip
use composable_centauri.Base.{
  ℕ, suc, ◌*◌, Bool, true, false, Option, none, some, List, [], ◌∷◌, ◌++◌, if◌then◌else◌, map,
}
use composable_centauri.Base.Int.{ℤ, pos}
use composable_centauri.Base.Bytes.{Bytes, eq_bytes}
use composable_centauri.Base.Exec.{Result, ok, err}
use composable_centauri.Kv.{Kv}
use composable_centauri.TransferMiddleware.Registry.{Registry, ParachainIbcTokenInfo}
use composable_centauri.TransferMiddleware.Keeper.{add_parachain_ibc_info}

-- The duration is in nanoseconds.
pub record GenesisState : Type 0 where
  pub token_infos : List ParachainIbcTokenInfo
  pub duration : ℤ

-- DefaultParams: a week.
abbrev pub default_duration : ℤ
default_duration = pos (168 * 3600 * 1000000000)

-- DefaultGenesisState
unfoldable pub default_genesis_state : GenesisState
default_genesis_state = record { token_infos = []; duration = default_duration }

pub data GenesisError : Type 0 where
  not_a_number duplicate_token_info : GenesisError

-- Whether the map of the asset ids seen so far holds one.
unfoldable pub seen : Bytes → List Bytes → Bool
seen asset_id [] = false
seen asset_id (b ∷ infos) = if eq_bytes b asset_id then true else seen asset_id infos

-- strconv.Atoi is a parameter.
module _ (atoi : Bytes → Option ℤ) where
  -- ParachainIBCTokenInfo.ValidateBasic
  unfoldable pub validate_basic : ParachainIbcTokenInfo → Result GenesisError (Unit {0})
  validate_basic info = elim (atoi info.asset_id) [ none ↦ err not_a_number | some n ↦ ok tt ]

  -- validateTokenInfos, with the asset ids of the infos before.
  unfoldable pub validate_token_infos :
      List Bytes → List ParachainIbcTokenInfo → Result GenesisError (Unit {0})
  unfolding validate_basic seen
  validate_token_infos info_map [] = ok tt
  validate_token_infos info_map (info ∷ infos) =
      let rest : Result GenesisError (Unit {0}) =
        validate_token_infos (info.asset_id ∷ info_map) infos in
      elim (validate_basic info) [
        | err e ↦ err e
        | ok _ ↦ if seen info.asset_id info_map then err duplicate_token_info else rest
      ]

  -- ValidateGenesis
  unfoldable pub validate_genesis : GenesisState → Result GenesisError (Unit {0})
  unfolding validate_token_infos
  validate_genesis genesis = validate_token_infos [] genesis.token_infos

-- A loop over infos with a callback, which gets the index and may stop the loop.
unfoldable pub iterate :
    {A : Type 0}
    → (ℕ → ParachainIbcTokenInfo → A → Bool × A)
    → ℕ
    → List ParachainIbcTokenInfo
    → A
    → A
iterate fn i [] a = a
iterate fn i (info ∷ infos) a =
    let (stop, b) = fn i info a in let rest = iterate fn (suc i) infos b in if stop then b else rest

module _ ⦃kv : Kv⦄ where
  -- IterateParaTokenInfos
  unfoldable pub iterate_para_token_infos :
      {A : Type 0} → (ℕ → ParachainIbcTokenInfo → A → Bool × A) → Registry → A → A
  unfolding iterate
  iterate_para_token_infos fn r a = iterate fn 0 (map (λ e. e.1) (kv.entries r.info_by_asset_id)) a

  -- The loop of InitGenesis, which drops the errors of AddParachainIBCInfo.
  unfoldable pub add_token_infos : List ParachainIbcTokenInfo → Registry → Registry
  add_token_infos [] r = r
  add_token_infos (info ∷ infos) r =
      add_token_infos infos
        (add_parachain_ibc_info info.ibc_denom info.channel_id info.native_denom info.asset_id r).1

  -- InitGenesis
  unfoldable pub init_genesis : GenesisState → Registry → Registry
  unfolding add_token_infos
  init_genesis genesis r = record (add_token_infos genesis.token_infos r) {
    duration = genesis.duration;
  }

  -- ExportGenesis
  unfoldable pub export_genesis : Registry → GenesisState
  unfolding iterate_para_token_infos
  export_genesis r = record {
    token_infos = iterate_para_token_infos (λ index info infos. (false, infos ++ info ∷ [])) r [];
    duration = r.duration;
  }
