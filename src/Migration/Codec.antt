-- ===== src/Migration/Codec.antt =====
-- What the conversions of addresses come to (bech32-migration/utils/utils.go), where the codec keeps
-- the laws of bech32.
use composable_centauri.Base.{
  ◌≡◌, ◌⊎◌, inl, inr, true, false, none, some, [], arith, Bool-cases, Option-cases,
}
use composable_centauri.Base.Bytes.{Bytes, eq_bytes, eq_bytes_iff}
use composable_centauri.Base.Exec.{ok, Result-cases}
use composable_centauri.Migration.Addresses.{
  Bech32, address_from_old_bech32, convert_val_addr, convert_cons_addr, convert_acc_addr,
  safe_convert_address, old_bech32_prefix, new_bech32_prefix, old_val_prefix, new_val_prefix,
  old_cons_prefix, new_cons_prefix,
}

module _ ⦃bech32 : Bech32⦄ where
  -- A valid address is decoded from what it prints as, and can be encoded under any prefix; the empty
  -- text has no more in it without its spaces.
  pub record CodecLaws : Type 0 where
    pub decode-acc_string :
        (bz : Bytes)
        → bech32.verify_address_format bz ≡ true
        → bech32.decode_and_convert (bech32.acc_string bz) ≡ some bz
    pub decode-val_string :
        (bz : Bytes)
        → bech32.verify_address_format bz ≡ true
        → bech32.decode_and_convert (bech32.val_string bz) ≡ some bz
    pub decode-cons_string :
        (bz : Bytes)
        → bech32.verify_address_format bz ≡ true
        → bech32.decode_and_convert (bech32.cons_string bz) ≡ some bz
    pub encodes :
        (prefix bz : Bytes)
        → bech32.verify_address_format bz ≡ true
        → (s : Bytes) × (bech32.convert_and_encode prefix bz ≡ some s)
    pub trim_empty : bech32.trim_space [] ≡ []

  -- The text is that of a valid address under the prefix.
  pub record IsAddress (prefix text bz : Bytes) : Type 0 where
    pub filled : eq_bytes (bech32.trim_space text) [] ≡ false
    pub coded : bech32.get_from_bech32 text prefix ≡ some bz
    pub valid : bech32.verify_address_format bz ≡ true

  -- The address under the old prefix is printed under the new one.
  abbrev pub IsReprinted : Bytes → Bytes → Bytes → Bytes → Type 0
  IsReprinted old new text text' =
      (bz : Bytes) × IsAddress old text bz × (bech32.convert_and_encode new bz ≡ some text')

  -- It is, or there is no address under the old prefix and the text stays.
  abbrev pub IsReprefixed : Bytes → Bytes → Bytes → Bytes → Type 0
  IsReprefixed old new text text' =
      IsReprinted old new text text' ⊎ ((text' ≡ text) × ((bz : Bytes) → ¬ IsAddress old text bz))

  read-IsAddress :
      (prefix text bz : Bytes)
      → address_from_old_bech32 text prefix ≡ some bz
      → IsAddress prefix text bz
  unfolding address_from_old_bech32
  read-IsAddress prefix text bz e = elim (Option-cases (bech32.get_from_bech32 text prefix)) [
    | inl bad ↦ absurd (ground arith)
    | inr (found, coded) ↦ record {
      filled = ground arith;
      coded = ground arith;
      valid = ground arith;
    }
  ]

  unread-IsAddress :
      (prefix text bz : Bytes)
      → address_from_old_bech32 text prefix ≡ none
      → ¬ IsAddress prefix text bz
  unfolding address_from_old_bech32
  unread-IsAddress prefix text bz e a = absurd (ground (arith, a.filled, a.coded, a.valid))

  pub convert_val_addr-IsReprefixed :
      (laws : CodecLaws) (text : Bytes)
      → IsReprefixed old_val_prefix new_val_prefix text (convert_val_addr text)
  unfolding convert_val_addr
  convert_val_addr-IsReprefixed laws text =
      elim (Option-cases (address_from_old_bech32 text old_val_prefix)) [
        | inl bad ↦ inr (ground arith, λ bz. unread-IsAddress old_val_prefix text bz bad)
        | inr (bz, good) ↦
            let a : IsAddress old_val_prefix text bz = read-IsAddress old_val_prefix text bz good in
            let (s, encoded) = laws.encodes new_val_prefix bz a.valid in
            inl (bz, a, ground (arith, laws.decode-val_string bz a.valid))
      ]

  pub convert_cons_addr-IsReprefixed :
      (laws : CodecLaws) (text : Bytes)
      → IsReprefixed old_cons_prefix new_cons_prefix text (convert_cons_addr text)
  unfolding convert_cons_addr
  convert_cons_addr-IsReprefixed laws text =
      elim (Option-cases (address_from_old_bech32 text old_cons_prefix)) [
        | inl bad ↦ inr (ground arith, λ bz. unread-IsAddress old_cons_prefix text bz bad)
        | inr (bz, good) ↦
            let a : IsAddress old_cons_prefix text bz =
              read-IsAddress old_cons_prefix text bz good in
            let (s, encoded) = laws.encodes new_cons_prefix bz a.valid in
            inl (bz, a, ground (arith, laws.decode-cons_string bz a.valid))
      ]

  pub convert_acc_addr-IsReprinted :
      (laws : CodecLaws) (text text' : Bytes)
      → convert_acc_addr text ≡ ok text'
      → IsReprinted old_bech32_prefix new_bech32_prefix text text'
  unfolding convert_acc_addr
  convert_acc_addr-IsReprinted laws text text' e =
      elim (Option-cases (address_from_old_bech32 text old_bech32_prefix)) [
        | inl bad ↦ absurd (ground arith)
        | inr (bz, good) ↦
            let a : IsAddress old_bech32_prefix text bz =
              read-IsAddress old_bech32_prefix text bz good in
            let (s, encoded) = laws.encodes new_bech32_prefix bz a.valid in
            (bz, a, ground (arith, laws.decode-acc_string bz a.valid))
      ]

  pub safe_convert_address-IsReprefixed :
      (laws : CodecLaws) (text : Bytes)
      → IsReprefixed old_bech32_prefix new_bech32_prefix text (safe_convert_address text)
  unfolding safe_convert_address
  safe_convert_address-IsReprefixed laws text = elim (Bool-cases (eq_bytes text [])) [
    | inl blank ↦ inr (
      ground (arith, eq_bytes_iff text []),
      λ bz a. absurd (
          ground (
            arith,
            eq_bytes_iff text [],
            eq_bytes_iff (bech32.trim_space text) [],
            a.filled,
            laws.trim_empty,
          )),
    )
    | inr filled ↦ elim (Option-cases (address_from_old_bech32 text old_bech32_prefix)) [
      | inl bad ↦ inr (ground arith, λ bz. unread-IsAddress old_bech32_prefix text bz bad)
      | inr (bz, good) ↦
          let a : IsAddress old_bech32_prefix text bz =
            read-IsAddress old_bech32_prefix text bz good in
          let (s, encoded) = laws.encodes new_bech32_prefix bz a.valid in
          inl (bz, a, ground (arith, laws.decode-acc_string bz a.valid))
    ]
  ]

  pub convert_acc_addr-Returns :
      (text bz : Bytes)
      → IsAddress old_bech32_prefix text bz
      → (text' : Bytes) × (convert_acc_addr text ≡ ok text')
  unfolding convert_acc_addr address_from_old_bech32
  convert_acc_addr-Returns text bz a = elim (Result-cases (convert_acc_addr text)) [
    | inl good ↦ good
    | inr (x, bad) ↦ absurd (ground (arith, a.filled, a.coded, a.valid))
  ]
