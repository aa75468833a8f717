-- ===== src/Migration/Gov/Moves.antt =====
-- What the migration makes of the governance's store (bech32-migration/gov/gov.go).
use composable_centauri.Base.{◌≡◌, ◌≢◌, refl, sym, subst, inl, inr, ◌⊎◌, some, arith}
use composable_centauri.Base.Bytes.{Bytes}
use composable_centauri.Base.Exec.{ok}
use composable_centauri.Kv.{Kv}
use composable_centauri.Migration.Addresses.{
  Bech32, safe_convert_address, old_bech32_prefix, new_bech32_prefix,
}
use composable_centauri.Migration.Codec.{CodecLaws, IsReprefixed, safe_convert_address-IsReprefixed}
use composable_centauri.Migration.Stores.{
  iterate_store_by_prefix, Moved, iterate_store_by_prefix-Moved,
}
use composable_centauri.Migration.Gov.{
  Proposal, Ballot, Deposited, Stored, readable, unreadable, v1beta1, v1, neither, Vote, Deposit,
  GovStore, convert_proposal, convert_vote, convert_deposit, migrate_gov,
}

module _ ⦃bech32 : Bech32⦄ where
  abbrev pub IsNewAddress : Bytes → Bytes → Type 0
  IsNewAddress = IsReprefixed old_bech32_prefix new_bech32_prefix

  module _ {Rest : Type 0} where
    abbrev pub ProposalMoves : Stored (Proposal Rest) → Stored (Proposal Rest) → Type 0
    ProposalMoves a b =
        (p : Proposal Rest) × (q : Proposal Rest) × (a ≡ readable p)
        × (b ≡ readable q)
        × IsNewAddress p.proposer q.proposer
        × (q.rest ≡ p.rest)

    abbrev pub BallotMoves : Ballot Rest → Ballot Rest → Type 0
    BallotMoves v w = IsNewAddress v.voter w.voter × (w.rest ≡ v.rest)

    abbrev pub DepositedMoves : Deposited Rest → Deposited Rest → Type 0
    DepositedMoves d e = IsNewAddress d.depositor e.depositor × (e.rest ≡ d.rest)

    convert_proposal-Moves :
        (laws : CodecLaws) (a b : Stored (Proposal Rest))
        → convert_proposal a ≡ ok b
        → ProposalMoves a b
    unfolding convert_proposal
    convert_proposal-Moves laws unreadable b e = absurd (ground arith)
    convert_proposal-Moves laws (readable p) b e = (
      p,
      record p { proposer = safe_convert_address p.proposer },
      refl,
      ground arith,
      safe_convert_address-IsReprefixed laws p.proposer,
      refl,
    )

  module _ {Rest NewRest : Type 0} where
    -- A vote keeps its encoding.
    abbrev pub VoteMoves : Vote Rest NewRest → Vote Rest NewRest → Type 0
    VoteMoves a b =
        ((v : Ballot Rest) × (w : Ballot Rest) × (a ≡ v1beta1 v)
          × (b ≡ v1beta1 w)
          × BallotMoves v w)
        ⊎ ((v : Ballot NewRest) × (w : Ballot NewRest) × (a ≡ v1 v) × (b ≡ v1 w) × BallotMoves v w)

    -- A deposit in the encoding v1beta1 keeps it; one in v1 is overwritten by what the decoder left.
    abbrev pub DepositMoves :
        (Deposited NewRest → Deposited Rest) → Deposit Rest NewRest → Deposit Rest NewRest → Type 0
    DepositMoves partially_read a b =
        (e : Deposited Rest) × (b ≡ v1beta1 e)
        × (((d : Deposited Rest) × (a ≡ v1beta1 d) × DepositedMoves d e)
            ⊎ ((d : Deposited NewRest) × (a ≡ v1 d) × DepositedMoves (partially_read d) e))

    convert_vote-Moves :
        (laws : CodecLaws) (a b : Vote Rest NewRest) → convert_vote a ≡ ok b → VoteMoves a b
    unfolding convert_vote
    convert_vote-Moves laws (v1beta1 v) b e = inl (
      v,
      record v { voter = safe_convert_address v.voter },
      refl,
      ground arith,
      (safe_convert_address-IsReprefixed laws v.voter, refl),
    )
    convert_vote-Moves laws (v1 v) b e = inr (
      v,
      record v { voter = safe_convert_address v.voter },
      refl,
      ground arith,
      (safe_convert_address-IsReprefixed laws v.voter, refl),
    )
    convert_vote-Moves laws neither b e = absurd (ground arith)

    convert_deposit-Moves :
        (laws : CodecLaws) (partially_read : Deposited NewRest → Deposited Rest)
        (a b : Deposit Rest NewRest)
        → convert_deposit partially_read a ≡ ok b
        → DepositMoves partially_read a b
    unfolding convert_deposit
    convert_deposit-Moves laws partially_read (v1beta1 d) b e = (
      record d { depositor = safe_convert_address d.depositor },
      ground arith,
      inl (d, refl, (safe_convert_address-IsReprefixed laws d.depositor, refl)),
    )
    convert_deposit-Moves laws partially_read (v1 d) b e =
        let left : Deposited Rest = partially_read d in
        (
          record left { depositor = safe_convert_address left.depositor },
          ground arith,
          inr (d, refl, (safe_convert_address-IsReprefixed laws left.depositor, refl)),
        )
    convert_deposit-Moves laws partially_read neither b e = absurd (ground arith)

    convert_vote-Takes :
        (a : Vote Rest NewRest) → a ≢ neither → (b : Vote Rest NewRest) × (convert_vote a ≡ ok b)
    unfolding convert_vote
    convert_vote-Takes (v1beta1 v) h = (_, refl)
    convert_vote-Takes (v1 v) h = (_, refl)
    convert_vote-Takes neither h = absurd (h refl)

    convert_deposit-Takes :
        (partially_read : Deposited NewRest → Deposited Rest) (a : Deposit Rest NewRest)
        → a ≢ neither
        → (b : Deposit Rest NewRest) × (convert_deposit partially_read a ≡ ok b)
    unfolding convert_deposit
    convert_deposit-Takes partially_read (v1beta1 v) h = (_, refl)
    convert_deposit-Takes partially_read (v1 v) h = (_, refl)
    convert_deposit-Takes partially_read neither h = absurd (h refl)

  module _ {Rest : Type 0} where
    convert_proposal-Takes :
        (a : Stored (Proposal Rest))
        → a ≢ unreadable
        → (b : Stored (Proposal Rest)) × (convert_proposal a ≡ ok b)
    unfolding convert_proposal
    convert_proposal-Takes unreadable h = absurd (h refl)
    convert_proposal-Takes (readable p) h = (_, refl)

module _ ⦃kv : Kv⦄ {Rest NewRest : Type 0} where
  -- Every stored value can be read, in one encoding or the other.
  pub record IsReadable (s : GovStore Rest NewRest) : Type 0 where
    pub proposals :
        (k : Bytes) (a : Stored (Proposal NewRest)) → kv.get k s.proposals ≡ some a → a ≢ unreadable
    pub votes : (k : Bytes) (a : Vote Rest NewRest) → kv.get k s.votes ≡ some a → a ≢ neither
    pub deposits :
        (k : Bytes) (a : Deposit Rest NewRest) → kv.get k s.deposits ≡ some a → a ≢ neither

module _ ⦃kv : Kv⦄ ⦃bech32 : Bech32⦄ {Rest NewRest : Type 0} where
  pub record GovMoves (partially_read : Deposited NewRest → Deposited Rest)
      (s t : GovStore Rest NewRest) : Type 0 where
    pub proposals : (k : Bytes) → Moved ProposalMoves (kv.get k s.proposals) (kv.get k t.proposals)
    pub votes : (k : Bytes) → Moved VoteMoves (kv.get k s.votes) (kv.get k t.votes)
    pub deposits :
        (k : Bytes)
        → Moved (DepositMoves partially_read) (kv.get k s.deposits) (kv.get k t.deposits)

  -- Where every stored proposal, vote and deposit can be read, and the codec keeps the laws of bech32,
  -- the migration of the governance's store returns. The proposer of each proposal, the voter of each
  -- vote, in either encoding, and the depositor of each v1beta1 deposit are printed under the new
  -- prefix, unless the text is no address under the old one, which stays; their rest and their encoding
  -- stay. A deposit in the encoding v1 is overwritten by what the failed decoding as v1beta1 left, with
  -- the depositor of that converted.
  pub migrate_gov-GovMoves :
      (laws : CodecLaws) (partially_read : Deposited NewRest → Deposited Rest)
      (s : GovStore Rest NewRest)
      → IsReadable s
      → let (result, t) = migrate_gov partially_read s in
        (result ≡ ok tt) × GovMoves partially_read s t
  unfolding migrate_gov
  migrate_gov-GovMoves laws partially_read s reads =
      let (proposed, proposals) =
        iterate_store_by_prefix-Moved convert_proposal ProposalMoves s.proposals
          (λ k a found. convert_proposal-Takes a (reads.proposals k a found))
          (convert_proposal-Moves laws) in
      let (voted, votes) =
        iterate_store_by_prefix-Moved convert_vote VoteMoves s.votes
          (λ k a found. convert_vote-Takes a (reads.votes k a found)) (convert_vote-Moves laws) in
      let (paid, deposits) =
        iterate_store_by_prefix-Moved (convert_deposit partially_read) (DepositMoves partially_read)
          s.deposits
          (λ k a found. convert_deposit-Takes partially_read a (reads.deposits k a found))
          (convert_deposit-Moves laws partially_read) in
      let after : GovStore Rest NewRest = record {
        proposals = (iterate_store_by_prefix convert_proposal s.proposals).1;
        votes = (iterate_store_by_prefix convert_vote s.votes).1;
        deposits = (iterate_store_by_prefix (convert_deposit partially_read) s.deposits).1;
      } in
      let ran : migrate_gov partially_read s ≡ (ok tt, after) = ground arith in
      subst (λ x. (x.0 ≡ ok tt) × GovMoves partially_read s x.1) (sym ran)
        (refl, record { proposals = proposals; votes = votes; deposits = deposits })
