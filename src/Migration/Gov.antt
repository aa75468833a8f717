-- ===== src/Migration/Gov.antt =====
-- The migration of the governance's proposals, votes and deposits (bech32-migration/gov/gov.go).
pub mod Moves
use composable_centauri.Base.{◌≡◌, ◌≢◌, refl, sym, subst, inl, inr, ◌⊎◌, some, arith}
use composable_centauri.Base.Bytes.{Bytes}
use composable_centauri.Base.Exec.{Result, ok, err, Exec, ◌>>◌}
use composable_centauri.Kv.{Kv}
use composable_centauri.Migration.Addresses.{
  Panic, panicked, Bech32, safe_convert_address, old_bech32_prefix, new_bech32_prefix,
}
use composable_centauri.Migration.Codec.{CodecLaws, IsReprefixed, safe_convert_address-IsReprefixed}
use composable_centauri.Migration.Stores.{
  iterate_store_by_prefix, Moved, iterate_store_by_prefix-Moved,
}
use composable_centauri.Migration.Modules.{on_part}

pub record Proposal (Rest : Type 0) : Type 0 where
  pub proposer : Bytes
  pub rest : Rest

pub record Ballot (Rest : Type 0) : Type 0 where
  pub voter : Bytes
  pub rest : Rest

pub record Deposited (Rest : Type 0) : Type 0 where
  pub depositor : Bytes
  pub rest : Rest

-- What stands in the store for a proposal: bytes that are read as one, or are not.
pub data Stored (A : Type 0) : Type 0 where
  readable : A → Stored A
  unreadable : Stored A

-- What stands in the store for a vote or a deposit: bytes that are read as v1beta1, or, where that
-- fails, as v1, or as neither.
pub data Encoded (A B : Type 0) : Type 0 where
  v1beta1 : A → Encoded A B
  v1 : B → Encoded A B
  neither : Encoded A B

abbrev pub Vote : Type 0 → Type 0 → Type 0
Vote Rest NewRest = Encoded (Ballot Rest) (Ballot NewRest)

abbrev pub Deposit : Type 0 → Type 0 → Type 0
Deposit Rest NewRest = Encoded (Deposited Rest) (Deposited NewRest)

-- The store of the gov module, with a field for each prefix that is migrated
pub record GovStore ⦃kv : Kv⦄ (Rest NewRest : Type 0) : Type 0 where
  pub proposals : kv.Store (Stored (Proposal NewRest))
  pub votes : kv.Store (Vote Rest NewRest)
  pub deposits : kv.Store (Deposit Rest NewRest)

module _ ⦃bech32 : Bech32⦄ {NewRest : Type 0} where
  -- MustUnmarshal panics at what it cannot read.
  unfoldable pub convert_proposal :
      Stored (Proposal NewRest) → Result Panic (Stored (Proposal NewRest))
  convert_proposal unreadable = err panicked
  convert_proposal (readable p) =
      ok (readable (record p { proposer = safe_convert_address p.proposer }))

module _ ⦃bech32 : Bech32⦄ {Rest NewRest : Type 0} where
  unfoldable pub convert_vote : Vote Rest NewRest → Result Panic (Vote Rest NewRest)
  convert_vote (v1beta1 vote) =
      ok (v1beta1 (record vote { voter = safe_convert_address vote.voter }))
  convert_vote (v1 vote) = ok (v1 (record vote { voter = safe_convert_address vote.voter }))
  convert_vote neither = err panicked

  -- A deposit that is read as v1 is not the one that is written: that is what the decoder left of it
  -- where it failed (the argument).
  unfoldable pub convert_deposit :
      (Deposited NewRest → Deposited Rest)
      → Deposit Rest NewRest
      → Result Panic (Deposit Rest NewRest)
  convert_deposit partially_read (v1beta1 deposit) =
      ok (v1beta1 (record deposit { depositor = safe_convert_address deposit.depositor }))
  convert_deposit partially_read (v1 deposit) =
      let left : Deposited Rest = partially_read deposit in
      ok (v1beta1 (record left { depositor = safe_convert_address left.depositor }))
  convert_deposit partially_read neither = err panicked

module _ ⦃kv : Kv⦄ ⦃bech32 : Bech32⦄ {Rest NewRest : Type 0} where
  -- MigrateAddressBech32 of gov
  unfoldable pub migrate_gov :
      (Deposited NewRest → Deposited Rest) → Exec Panic (GovStore Rest NewRest) (Unit {0})
  unfolding iterate_store_by_prefix convert_proposal convert_vote convert_deposit
  migrate_gov partially_read = do
    on_part (λ s. s.proposals) (λ t s. record s { proposals = t })
        (iterate_store_by_prefix convert_proposal)
    on_part (λ s. s.votes) (λ t s. record s { votes = t }) (iterate_store_by_prefix convert_vote)
    on_part (λ s. s.deposits) (λ t s. record s { deposits = t })
        (iterate_store_by_prefix (convert_deposit partially_read))
