-- ===== src/Migration/Samples.antt =====
-- A codec that prints an address as its prefix, a 1 and its bytes, and stores with old addresses.
use composable_centauri.Base.{
  subst, ◌≢◌, arith, ◌≡◌, refl, ◌↔◌, true, Option, none, some, [], ◌∷◌, ◌++◌, ℕ, ◌==◌,
  if◌then◌else◌,
}
use composable_centauri.Base.Bytes.{Bytes, bytes, eq_bytes}
use composable_centauri.Base.Exec.{ok}
use composable_centauri.Kv.{has}
use composable_centauri.Kv.Assoc.{assoc_kv, set, no_entries, Entries, without, insert}
use composable_centauri.Migration.Addresses.{
  Bech32, address_from_old_bech32, convert_val_addr, convert_acc_addr, safe_convert_address,
}
use composable_centauri.Migration.Allowed.{
  convert_keys, migrate_allowed, IsOldOrConverted, migrate_allowed-exact,
}
use composable_centauri.Kv.Assoc
use composable_centauri.Migration.Codec.{CodecLaws}
use composable_centauri.Migration.Modules.{Delegation, StakingStore, migrate_staking}
use composable_centauri.Migration.Staking.{StakingMoves, migrate_staking-StakingMoves}
use composable_centauri.Migration.Staking.Moves.{IsOld}
use composable_centauri.Migration.Gov.{
  GovStore, Deposited, readable, unreadable, v1, neither, migrate_gov,
}
use composable_centauri.Migration.Gov.Moves.{GovMoves, migrate_gov-GovMoves}

-- What follows a prefix.
unfoldable after_prefix : Bytes → Bytes → Option Bytes
after_prefix [] address = some address
after_prefix (c ∷ prefix) [] = none
after_prefix (c ∷ prefix) (d ∷ address) =
    let rest = after_prefix prefix address in if c == d then rest else none

-- What follows the first 1.
unfoldable after_one : Bytes → Option Bytes
after_one [] = none
after_one (c ∷ address) = let rest = after_one address in if c == 49 then some address else rest

instance abbrev plain_codec : Bech32
unfolding after_prefix after_one
plain_codec = record {
  get_from_bech32 = λ address prefix. after_prefix (prefix ++ bytes "1") address;
  convert_and_encode = λ prefix bz. some (prefix ++ bytes "1" ++ bz);
  decode_and_convert = after_one;
  verify_address_format = λ bz. true;
  trim_space = λ address. address;
  acc_string = λ bz. bytes "pica1" ++ bz;
  val_string = λ bz. bytes "picavaloper1" ++ bz;
  cons_string = λ bz. bytes "picavalcons1" ++ bz;
  prefix_validator = bytes "val";
  prefix_operator = bytes "oper";
  prefix_consensus = bytes "cons";
}

converts_an_account : convert_acc_addr (bytes "centauri1alice") ≡ ok (bytes "pica1alice")
unfolding convert_acc_addr address_from_old_bech32 after_prefix after_one eq_bytes
converts_an_account = refl

converts_a_validator : convert_val_addr (bytes "centaurivaloper1bob") ≡ bytes "picavaloper1bob"
unfolding convert_val_addr address_from_old_bech32 after_prefix after_one eq_bytes
converts_a_validator = refl

leaves_what_it_cannot_read : safe_convert_address (bytes "osmo1carol") ≡ bytes "osmo1carol"
unfolding safe_convert_address address_from_old_bech32 after_prefix after_one eq_bytes
leaves_what_it_cannot_read = refl

-- Two that are allowed under the old prefix
abbrev allowed : Entries ℕ
allowed =
    assoc_kv.set (bytes "centauri1alice") 1 (assoc_kv.set (bytes "centauri1bob") 1 assoc_kv.empty)

migrate_allowed-exact_example :
    (has (bytes "pica1alice") (migrate_allowed allowed).1 ≡ true)
    ↔ IsOldOrConverted (bytes "pica1alice") allowed.items allowed
unfolding migrate_allowed convert_keys convert_acc_addr address_from_old_bech32 after_prefix
    after_one eq_bytes set no_entries without insert
migrate_allowed-exact_example = migrate_allowed-exact (bytes "pica1alice") allowed refl

abbrev delegation : Delegation ℕ
delegation = record {
  delegator_address = bytes "centauri1alice";
  validator_address = bytes "centaurivaloper1bob";
  rest = 7;
}

abbrev delegations : Entries (Delegation ℕ)
delegations = assoc_kv.set (bytes "d") delegation assoc_kv.empty

abbrev staking_store : StakingStore ℕ
staking_store = record {
  validators =
      assoc_kv.set (bytes "v") (record { operator_address = bytes "centaurivaloper1bob"; rest = 3 })
        assoc_kv.empty;
  delegations = delegations;
  redelegations = assoc_kv.empty;
  unbonding_delegations = delegations;
  historical_info = assoc_kv.empty;
  unbonding_queue = assoc_kv.empty;
  redelegation_queue = assoc_kv.empty;
  validator_queue = assoc_kv.empty;
}

plain_codec-laws : CodecLaws
unfolding after_one plain_codec
plain_codec-laws = record {
  decode-acc_string = λ bz valid. refl;
  decode-val_string = λ bz valid. refl;
  decode-cons_string = λ bz valid. refl;
  encodes = λ prefix bz valid. (prefix ++ bytes "1" ++ bz, refl);
  trim_empty = refl;
}

alice-IsOld : IsOld (bytes "centauri1alice")
unfolding after_prefix eq_bytes plain_codec
alice-IsOld = (bytes "alice", record { filled = refl; coded = refl; valid = refl })

one_entry :
    {V : Type 0} (k j : Bytes) (v w : V)
    → assoc_kv.get k (assoc_kv.set j v assoc_kv.empty) ≡ some w
    → v ≡ w
one_entry {V} k j v w found =
    ground (arith, Assoc.get-set j k v assoc_kv.empty, Assoc.get-empty {V = V} k)

no_entry : {V : Type 0} (k : Bytes) (w : V) → ¬ (assoc_kv.get k assoc_kv.empty ≡ some w)
no_entry {V} k w found = absurd (ground (arith, Assoc.get-empty {V = V} k))

delegations-AreOld :
    (k : Bytes) (d : Delegation ℕ) → assoc_kv.get k delegations ≡ some d → IsOld d.delegator_address
delegations-AreOld k d found =
    subst (λ x. IsOld x.delegator_address) (one_entry k (bytes "d") delegation d found) alice-IsOld

migrate_staking-StakingMoves_example :
    let (result, t) = migrate_staking staking_store in
    (result ≡ ok tt) × StakingMoves staking_store t
migrate_staking-StakingMoves_example =
    migrate_staking-StakingMoves plain_codec-laws staking_store (record {
      delegations = delegations-AreOld;
      redelegations = λ k d found. absurd (no_entry k d found);
      unbonding_delegations = delegations-AreOld;
    })

abbrev gov_store : GovStore ℕ ℕ
gov_store = record {
  proposals =
      assoc_kv.set (bytes "1") (readable (record { proposer = bytes "centauri1alice"; rest = 5 }))
        assoc_kv.empty;
  votes =
      assoc_kv.set (bytes "1") (v1 (record { voter = bytes "centauri1alice"; rest = 6 }))
        assoc_kv.empty;
  deposits =
      assoc_kv.set (bytes "1") (v1 (record { depositor = bytes "centauri1alice"; rest = 9 }))
        assoc_kv.empty;
}

-- A decoder that leaves nothing of a deposit
abbrev nothing_read : Deposited ℕ → Deposited ℕ
nothing_read deposit = record { depositor = []; rest = 0 }

migrate_gov-GovMoves_example :
    let (result, t) = migrate_gov nothing_read gov_store in
    (result ≡ ok tt) × GovMoves nothing_read gov_store t
migrate_gov-GovMoves_example =
    migrate_gov-GovMoves plain_codec-laws nothing_read gov_store (record {
      proposals = λ k a found.
          subst (λ x. x ≢ unreadable) (one_entry k (bytes "1") _ a found)
            (λ e. absurd (ground arith));
      votes = λ k a found.
          subst (λ x. x ≢ neither) (one_entry k (bytes "1") _ a found) (λ e. absurd (ground arith));
      deposits = λ k a found.
          subst (λ x. x ≢ neither) (one_entry k (bytes "1") _ a found) (λ e. absurd (ground arith));
    })
