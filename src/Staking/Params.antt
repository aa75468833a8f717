-- ===== src/Staking/Params.antt =====
-- The parameters of the staking epochs (x/stakingmiddleware/keeper/keeper.go, msg_server.go and
-- genesis.go, types/genesis.go and types/msgs.go).
use composable_centauri.Base.{ℕ, not, Option, none, some, ltb}
use composable_centauri.Base.Bytes.{Bytes, eq_bytes}
use composable_centauri.Base.Exec.{Result, ok, err, Exec, modify, gets, raise_if, ◌>>=◌, ◌>>◌}
use composable_centauri.Sdk.{Sdk}

-- Both are uint64.
pub record Params : Type 0 where
  pub blocks_per_epoch : ℕ
  pub allow_unbond_after_epoch_progress_block_number : ℕ

-- The parameters that a read leaves where none are stored.
abbrev pub no_params : Params
no_params = record { blocks_per_epoch = 0; allow_unbond_after_epoch_progress_block_number = 0 }

-- What the store holds under ParamsKey.
pub record State : Type 0 where
  pub authority : Bytes
  pub stored : Option Params

pub data Error : Type 0 where
  invalid_signer epoch_too_short unbonding_too_late invalid_authority : Error

abbrev pub Action : Type 0 → Type 0
Action A = Exec Error State A

-- SetParams
unfoldable pub set_params : Params → Action (Unit {0})
set_params p = do
  raise_if (ltb p.blocks_per_epoch 5) epoch_too_short
  raise_if (ltb p.blocks_per_epoch p.allow_unbond_after_epoch_progress_block_number)
      unbonding_too_late
  modify λ s. record s { stored = some p }

-- GetParams, and the query of the parameters
unfoldable pub get_params : State → Params
get_params s = elim s.stored [ none ↦ no_params | some p ↦ p ]

-- UpdateEpochParams: the authority of the request and its parameters.
unfoldable pub update_epoch_params : Bytes → Params → Action (Unit {0})
unfolding set_params
update_epoch_params authority params = do
  raise_if (← gets (λ s. not (eq_bytes s.authority authority))) invalid_signer
  set_params params

-- MsgUpdateEpochParams.ValidateBasic
unfoldable pub validate_basic : ⦃sdk : Sdk⦄ → Bytes → Result Error (Unit {0})
validate_basic ⦃sdk⦄ authority = elim (sdk.acc_address_from_bech32 authority) [
  | none ↦ err invalid_authority
  | some a ↦ ok tt
]

-- DefaultGenesisState
unfoldable pub default_genesis_state : Params
default_genesis_state = record {
  blocks_per_epoch = 360;
  allow_unbond_after_epoch_progress_block_number = 0;
}

-- ValidateGenesis
unfoldable pub validate_genesis : Params → Result Error (Unit {0})
validate_genesis genesis = ok tt

-- InitGenesis, which panics with the error of SetParams.
unfoldable pub init_genesis : Params → Action (Unit {0})
unfolding set_params
init_genesis genesis = set_params genesis

-- ExportGenesis
unfoldable pub export_genesis : State → Params
unfolding get_params
export_genesis s = get_params s
