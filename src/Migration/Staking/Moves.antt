-- ===== src/Migration/Staking/Moves.antt =====
-- What the migration makes of a value of the staking module's store
-- (bech32-migration/staking/staking.go).
use composable_centauri.Base.{◌≡◌, refl, subst, inl, inr, List, [], ◌∷◌, map, arith}
use composable_centauri.Base.Bytes.{Bytes}
use composable_centauri.Base.Exec.{ok, Result-cases}
use composable_centauri.Migration.Addresses.{
  Bech32, convert_acc_addr, old_bech32_prefix, new_bech32_prefix, old_val_prefix, new_val_prefix,
  convert_val_addr,
}
use composable_centauri.Migration.Codec.{
  CodecLaws, IsAddress, IsReprinted, IsReprefixed, convert_val_addr-IsReprefixed,
  convert_acc_addr-IsReprinted, convert_acc_addr-Returns,
}
use composable_centauri.Migration.Modules.{
  Validator, Delegation, Redelegation, HistoricalInfo, convert_validator, convert_delegation,
  convert_redelegation, convert_historical_info,
}

module _ ⦃bech32 : Bech32⦄ where
  abbrev pub IsNewAccount : Bytes → Bytes → Type 0
  IsNewAccount = IsReprinted old_bech32_prefix new_bech32_prefix

  abbrev pub IsNewValidator : Bytes → Bytes → Type 0
  IsNewValidator = IsReprefixed old_val_prefix new_val_prefix

  -- The text is that of a valid address under the old prefix.
  abbrev pub IsOld : Bytes → Type 0
  IsOld text = (bz : Bytes) × IsAddress old_bech32_prefix text bz

  module _ {Rest : Type 0} where
    abbrev pub ValidatorMoves : Validator Rest → Validator Rest → Type 0
    ValidatorMoves v w = IsNewValidator v.operator_address w.operator_address × (w.rest ≡ v.rest)

    abbrev pub DelegationMoves : Delegation Rest → Delegation Rest → Type 0
    DelegationMoves d w =
        IsNewAccount d.delegator_address w.delegator_address
        × IsNewValidator d.validator_address w.validator_address
        × (w.rest ≡ d.rest)

    abbrev pub RedelegationMoves : Redelegation Rest → Redelegation Rest → Type 0
    RedelegationMoves d w =
        IsNewAccount d.delegator_address w.delegator_address
        × IsNewValidator d.validator_src_address w.validator_src_address
        × IsNewValidator d.validator_dst_address w.validator_dst_address
        × (w.rest ≡ d.rest)

    abbrev pub EachMoves : List (Validator Rest) → List (Validator Rest) → Type 0
    EachMoves [] ws = ws ≡ []
    EachMoves (v ∷ vs) ws =
        (w : Validator Rest) × (rest : List (Validator Rest)) × (ws ≡ w ∷ rest)
        × ValidatorMoves v w
        × EachMoves vs rest

    abbrev pub HistoryMoves : HistoricalInfo Rest → HistoricalInfo Rest → Type 0
    HistoryMoves h w = EachMoves h.valset w.valset × (w.rest ≡ h.rest)

    pub convert_validator-Moves :
        (laws : CodecLaws) (v : Validator Rest) → ValidatorMoves v (convert_validator v)
    unfolding convert_validator
    convert_validator-Moves laws v = (convert_val_addr-IsReprefixed laws v.operator_address, refl)

    map-EachMoves :
        (laws : CodecLaws) (vs : List (Validator Rest)) → EachMoves vs (map convert_validator vs)
    map-EachMoves laws [] = refl
    map-EachMoves laws (v ∷ vs) = (
      convert_validator v,
      map convert_validator vs,
      refl,
      convert_validator-Moves laws v,
      map-EachMoves laws vs,
    )

    pub convert_historical_info-Moves :
        (laws : CodecLaws) (h : HistoricalInfo Rest) → HistoryMoves h (convert_historical_info h)
    unfolding convert_historical_info
    convert_historical_info-Moves laws h = (map-EachMoves laws h.valset, refl)

    pub convert_delegation-Moves :
        (laws : CodecLaws) (d w : Delegation Rest)
        → convert_delegation d ≡ ok w
        → DelegationMoves d w
    unfolding convert_delegation
    convert_delegation-Moves laws d w e =
        elim (Result-cases (convert_acc_addr d.delegator_address)) [
          | inr (x, bad) ↦ absurd (ground arith)
          | inl (a, good) ↦
              let same : record d {
                delegator_address = a;
                validator_address = convert_val_addr d.validator_address;
              }
                  ≡ w =
                ground arith in
              subst (DelegationMoves d) same (
                convert_acc_addr-IsReprinted laws d.delegator_address a good,
                convert_val_addr-IsReprefixed laws d.validator_address,
                refl,
              )
        ]

    pub convert_redelegation-Moves :
        (laws : CodecLaws) (d w : Redelegation Rest)
        → convert_redelegation d ≡ ok w
        → RedelegationMoves d w
    unfolding convert_redelegation
    convert_redelegation-Moves laws d w e =
        elim (Result-cases (convert_acc_addr d.delegator_address)) [
          | inr (x, bad) ↦ absurd (ground arith)
          | inl (a, good) ↦
              let same : record d {
                delegator_address = a;
                validator_src_address = convert_val_addr d.validator_src_address;
                validator_dst_address = convert_val_addr d.validator_dst_address;
              }
                  ≡ w =
                ground arith in
              subst (RedelegationMoves d) same (
                convert_acc_addr-IsReprinted laws d.delegator_address a good,
                convert_val_addr-IsReprefixed laws d.validator_src_address,
                convert_val_addr-IsReprefixed laws d.validator_dst_address,
                refl,
              )
        ]

    pub convert_delegation-Takes :
        (d : Delegation Rest)
        → IsOld d.delegator_address
        → (w : Delegation Rest) × (convert_delegation d ≡ ok w)
    unfolding convert_delegation
    convert_delegation-Takes d (bz, a) =
        let (text, good) = convert_acc_addr-Returns d.delegator_address bz a in
        elim (Result-cases (convert_delegation d)) [
          | inl taken ↦ taken
          | inr (x, bad) ↦ absurd (ground arith)
        ]

    pub convert_redelegation-Takes :
        (d : Redelegation Rest)
        → IsOld d.delegator_address
        → (w : Redelegation Rest) × (convert_redelegation d ≡ ok w)
    unfolding convert_redelegation
    convert_redelegation-Takes d (bz, a) =
        let (text, good) = convert_acc_addr-Returns d.delegator_address bz a in
        elim (Result-cases (convert_redelegation d)) [
          | inl taken ↦ taken
          | inr (x, bad) ↦ absurd (ground arith)
        ]
