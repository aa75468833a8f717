-- ===== src/Migration/Addresses.antt =====
-- The conversion of addresses from the old prefix to the new one (bech32-migration/utils/utils.go).
-- The codec of bech32 is a parameter, with the laws of such a codec beside it.
use composable_centauri.Base.{Bool, true, false, Option, none, some, [], ◌++◌, if◌then◌else◌}
use composable_centauri.Base.Bytes.{Bytes, bytes, eq_bytes}
use composable_centauri.Base.Exec.{Result, ok, err}

pub data Panic : Type 0 where
  panicked : Panic

pub record Bech32 : Type 0 where
  -- sdk.GetFromBech32: an address and its prefix
  pub get_from_bech32 : Bytes → Bytes → Option Bytes
  -- bech32.ConvertAndEncode: a prefix and the bytes
  pub convert_and_encode : Bytes → Bytes → Option Bytes
  -- bech32.DecodeAndConvert: the bytes
  pub decode_and_convert : Bytes → Option Bytes
  -- sdk.VerifyAddressFormat, true where it returns no error, and strings.TrimSpace
  pub verify_address_format : Bytes → Bool
  pub trim_space : Bytes → Bytes
  -- String of an account, a validator and a consensus address
  pub acc_string : Bytes → Bytes
  pub val_string : Bytes → Bytes
  pub cons_string : Bytes → Bytes
  -- sdk.PrefixValidator, sdk.PrefixOperator and sdk.PrefixConsensus
  pub prefix_validator : Bytes
  pub prefix_operator : Bytes
  pub prefix_consensus : Bytes

abbrev pub old_bech32_prefix : Bytes
old_bech32_prefix = bytes "centauri"

abbrev pub new_bech32_prefix : Bytes
new_bech32_prefix = bytes "pica"

module _ ⦃bech32 : Bech32⦄ where
  -- AccAddressFromOldBech32, ConsAddressFromOldBech32 and ValAddressFromOldBech32
  unfoldable pub address_from_old_bech32 : Bytes → Bytes → Option Bytes
  address_from_old_bech32 address prefix = elim (eq_bytes (bech32.trim_space address) []) [
    | true ↦ none
    | false ↦ elim (bech32.get_from_bech32 address prefix) [
      | none ↦ none
      | some bz ↦ if bech32.verify_address_format bz then some bz else none
    ]
  ]

  abbrev pub old_val_prefix : Bytes
  old_val_prefix = old_bech32_prefix ++ bech32.prefix_validator ++ bech32.prefix_operator

  abbrev pub new_val_prefix : Bytes
  new_val_prefix = new_bech32_prefix ++ bech32.prefix_validator ++ bech32.prefix_operator

  abbrev pub old_cons_prefix : Bytes
  old_cons_prefix = old_bech32_prefix ++ bech32.prefix_validator ++ bech32.prefix_consensus

  abbrev pub new_cons_prefix : Bytes
  new_cons_prefix = new_bech32_prefix ++ bech32.prefix_validator ++ bech32.prefix_consensus

  -- What is printed of an address under a new prefix where the errors are dropped: the empty string
  -- after an error of the encoder, which gets no bytes after one of the decoder.
  abbrev pub printed : Bytes → Bytes → Bytes
  printed prefix address =
      let bz : Bytes = elim (bech32.decode_and_convert address) [ none ↦ [] | some b ↦ b ] in
      elim (bech32.convert_and_encode prefix bz) [ none ↦ [] | some s ↦ s ]

  -- ConvertValAddr
  unfoldable pub convert_val_addr : Bytes → Bytes
  unfolding address_from_old_bech32
  convert_val_addr address = elim (address_from_old_bech32 address old_val_prefix) [
    | none ↦ address
    | some bz ↦ printed new_val_prefix (bech32.val_string bz)
  ]

  -- ConvertConsAddr
  unfoldable pub convert_cons_addr : Bytes → Bytes
  unfolding address_from_old_bech32
  convert_cons_addr address = elim (address_from_old_bech32 address old_cons_prefix) [
    | none ↦ address
    | some bz ↦ printed new_cons_prefix (bech32.cons_string bz)
  ]

  -- ConvertAccAddr, which panics at an address that it cannot read.
  unfoldable pub convert_acc_addr : Bytes → Result Panic Bytes
  unfolding address_from_old_bech32
  convert_acc_addr address = elim (address_from_old_bech32 address old_bech32_prefix) [
    | none ↦ err panicked
    | some bz ↦ ok (printed new_bech32_prefix (bech32.acc_string bz))
  ]

  -- SafeConvertAddress
  unfoldable pub safe_convert_address : Bytes → Bytes
  unfolding address_from_old_bech32
  safe_convert_address address = elim (eq_bytes address []) [
    | true ↦ []
    | false ↦ elim (address_from_old_bech32 address old_bech32_prefix) [
      | none ↦ address
      | some bz ↦ elim (bech32.decode_and_convert (bech32.acc_string bz)) [
        | none ↦ address
        | some decoded ↦ elim (bech32.convert_and_encode new_bech32_prefix decoded) [
          | none ↦ address
          | some converted ↦ converted
        ]
      ]
    ]
  ]
