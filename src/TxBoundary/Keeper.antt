-- ===== src/TxBoundary/Keeper.antt =====
-- How many delegations and redelegations an account may send (x/tx-boundary/keeper/keeper.go,
-- x/tx-boundary/types/genesis.go, x/tx-boundary/keeper/genensis.go).
use composable_centauri.Base.{
  ℕ, ◌+◌, ◌-◌, ◌/◌, ◌%◌, ◌^◌, ◌==◌, ◌||◌, Bool, Option, none, some, ltb, if◌then◌else◌,
}
use composable_centauri.Base.Int.{ℤ, pos, leb_ℤ, eqb_ℤ}
use composable_centauri.Base.Word.{to_uint64, to_int64, add_int64, sub_uint64}
use composable_centauri.Base.Bytes.{Bytes}
use composable_centauri.Base.Exec.{Exec, pure, modify, raise, raise_if, ok, err, ◌>>=◌, ◌>>◌}
use composable_centauri.Kv.{Kv, get_or}

pub record Boundary : Type 0 where
  pub tx_limit : ℕ
  pub blocks_per_generation : ℕ

-- The field names are the source's.
pub record LimitPerAddr : Type 0 where
  pub delegate_count : ℕ
  pub reledegate_count : ℕ
  pub latest_update_block : ℤ

pub data Error : Type 0 where
  zero_blocks_per_generation invalid_address delegate_denied redelegate_denied : Error
  unreadable_message : Error
  -- panics
  boundary_missing division_by_zero : Error

-- The keeper's store: the keys 0x00 and 0x01, and the addresses.
pub record State ⦃kv : Kv⦄ : Type 0 where
  pub delegate_boundary : Option Boundary
  pub redelegate_boundary : Option Boundary
  pub limits : kv.Store LimitPerAddr

pub record GenesisState : Type 0 where
  pub delegate_boundary : Boundary
  pub redelegate_boundary : Boundary

-- DefaultDelegateBoundary and DefaultRedelegateBoundary
abbrev pub default_boundary : Boundary
default_boundary = record { tx_limit = 5; blocks_per_generation = 5 }

-- DefaultGenesisState
unfoldable pub default_genesis_state : GenesisState
default_genesis_state = record {
  delegate_boundary = default_boundary;
  redelegate_boundary = default_boundary;
}

-- ValidateGenesis, true where it returns an error.
unfoldable pub validate_genesis_fails : GenesisState → Bool
validate_genesis_fails g =
    g.delegate_boundary.blocks_per_generation == 0
    || g.redelegate_boundary.blocks_per_generation == 0

-- A count after a number of transactions was generated.
unfoldable pub lowered : ℕ → ℕ → ℕ
lowered generated count = if ltb count generated then 0 else count - generated

-- The generated transactions of UpdateLimitPerAddr: five at most.
unfoldable pub generated_tx : ℕ → ℕ → ℕ
generated_tx duration blocks_per_generation =
    let whole = duration / blocks_per_generation in if ltb 5 whole then 5 else whole

-- The limit that UpdateLimitPerAddr stores at the end of a generation.
unfoldable pub regenerated : ℤ → Boundary → LimitPerAddr → LimitPerAddr
unfolding generated_tx lowered sub_uint64
regenerated block_height boundary l =
    let duration = sub_uint64 (to_uint64 block_height) (to_uint64 l.latest_update_block) in
    let generated = generated_tx duration boundary.blocks_per_generation in
    record {
      delegate_count = lowered generated l.delegate_count;
      reledegate_count = lowered generated l.reledegate_count;
      latest_update_block = block_height;
    }

-- The `++` of a uint64.
unfoldable pub next_uint64 : ℕ → ℕ
next_uint64 n = (n + 1) % 2 ^ 64

abbrev pub no_limit : LimitPerAddr
no_limit = record { delegate_count = 0; reledegate_count = 0; latest_update_block = pos 0 }

module _ ⦃kv : Kv⦄ where
  abbrev pub Action : Type 0 → Type 0
  Action A = Exec Error State A

  -- SetDelegateBoundary and SetRedelegateBoundary
  unfoldable pub set_delegate_boundary : Boundary → Action (Unit {0})
  set_delegate_boundary boundary = do
    raise_if (boundary.blocks_per_generation == 0) zero_blocks_per_generation
    modify (λ s. record s { delegate_boundary = some boundary })

  unfoldable pub set_redelegate_boundary : Boundary → Action (Unit {0})
  set_redelegate_boundary boundary = do
    raise_if (boundary.blocks_per_generation == 0) zero_blocks_per_generation
    modify (λ s. record s { redelegate_boundary = some boundary })

  abbrev or_panic : Option Boundary → Action Boundary
  or_panic none = raise boundary_missing
  or_panic (some boundary) = pure boundary

  -- GetDelegateBoundary and GetRedelegateBoundary
  unfoldable pub get_delegate_boundary : Action Boundary
  get_delegate_boundary s = or_panic s.delegate_boundary s

  unfoldable pub get_redelegate_boundary : Action Boundary
  get_redelegate_boundary s = or_panic s.redelegate_boundary s

  -- SetLimitPerAddr and GetLimitPerAddr
  unfoldable pub set_limit_per_addr : Bytes → LimitPerAddr → State → State
  set_limit_per_addr addr l s = record s { limits = kv.set addr l s.limits }

  unfoldable pub get_limit_per_addr : Bytes → State → LimitPerAddr
  get_limit_per_addr addr s = get_or addr s.limits no_limit

  -- IncrementDelegateCount and IncrementRedelegateCount, at a block height.
  unfoldable pub increment_delegate_count : ℤ → Bytes → State → State
  unfolding set_limit_per_addr next_uint64
  increment_delegate_count block_height addr s = elim (kv.get addr s.limits) [
    | none ↦
        set_limit_per_addr addr
          (record { delegate_count = 1; reledegate_count = 0; latest_update_block = block_height })
          s
    | some l ↦
        set_limit_per_addr addr (record l { delegate_count = next_uint64 l.delegate_count }) s
  ]

  unfoldable pub increment_redelegate_count : ℤ → Bytes → State → State
  unfolding set_limit_per_addr next_uint64
  increment_redelegate_count block_height addr s = elim (kv.get addr s.limits) [
    | none ↦
        set_limit_per_addr addr
          (record { delegate_count = 0; reledegate_count = 1; latest_update_block = block_height })
          s
    | some l ↦
        set_limit_per_addr addr (record l { reledegate_count = next_uint64 l.reledegate_count }) s
  ]

  -- The part of UpdateLimitPerAddr after the boundary was read.
  unfoldable pub regenerate : ℤ → Bytes → Boundary → LimitPerAddr → Action (Unit {0})
  unfolding set_limit_per_addr
  regenerate block_height addr boundary l s =
      if leb_ℤ (add_int64 l.latest_update_block (to_int64 boundary.blocks_per_generation))
        block_height
      then (if boundary.blocks_per_generation == 0
          then (err division_by_zero, s)
          else (ok tt, set_limit_per_addr addr (regenerated block_height boundary l) s))
      else (ok tt, s)

  -- UpdateLimitPerAddr
  unfoldable pub update_limit_per_addr : ℤ → Bytes → Action (Unit {0})
  update_limit_per_addr block_height addr s =
      let l = get_limit_per_addr addr s in
      if eqb_ℤ l.latest_update_block (pos 0)
      then (ok tt, s)
      else (let (r, s') = get_delegate_boundary s in
          elim r [ ok boundary ↦ regenerate block_height addr boundary l s' | err e ↦ (err e, s') ])

  -- InitGenesis: the errors of the two setters are dropped.
  unfoldable pub init_genesis : GenesisState → State → State
  unfolding set_delegate_boundary set_redelegate_boundary
  init_genesis g s =
      (set_redelegate_boundary g.redelegate_boundary
        (set_delegate_boundary g.delegate_boundary s).1).1

  -- ExportGenesis
  unfoldable pub export_genesis : Action GenesisState
  export_genesis = do
    delegate_boundary ← get_delegate_boundary
    redelegate_boundary ← get_redelegate_boundary
    pure (record {
      delegate_boundary = delegate_boundary;
      redelegate_boundary = redelegate_boundary;
    })
