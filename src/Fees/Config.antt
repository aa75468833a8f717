-- ===== src/Fees/Config.antt =====
-- The fee schedule and the sequence fees (x/ibctransfermiddleware/keeper/keeper.go and
-- msg_server.go).
use composable_centauri.Base.{
  ℕ, Bool, true, false, not, ◌||◌, Option, none, some, List, [], ◌∷◌, ◌++◌, if◌then◌else◌,
}
use composable_centauri.Base.Int.{ℤ}
use composable_centauri.Base.Bytes.{Bytes, eq_bytes}
use composable_centauri.Base.Decimal.{print_uint64}
use composable_centauri.Base.Exec.{Exec, gets, modify, raise, raise_if, ◌>>=◌, ◌>>◌}
use composable_centauri.Kv.{Kv}
use composable_centauri.Sdk.{Sdk}

-- sdk.Coin
pub record Coin : Type 0 where
  pub denom : Bytes
  pub amount : ℤ

pub record TxPriorityFee : Type 0 where
  pub priority : Bytes
  pub priority_fee : Coin

-- The percentage is an int64.
pub record CoinItem : Type 0 where
  pub min_fee : Coin
  pub percentage : ℤ
  pub tx_priority_fee : List TxPriorityFee

-- The timeout is an int64, in nanoseconds.
pub record ChannelFee : Type 0 where
  pub channel : Bytes
  pub allowed_tokens : List CoinItem
  pub fee_address : Bytes
  pub min_timeout_timestamp : ℤ

pub data Error : Type 0 where
  invalid_signer invalid_address channel_fee_not_found : Error
  timeout_in_the_past timeout_too_soon token_not_allowed : Error
  -- An error of the bank or of the transfer application.
  from_below : Error
  -- panics
  negative_coin division_by_zero : Error

-- Params of the store, the fees by sequence number, and the rest of the chain.
pub record State ⦃kv : Kv⦄ (World : Type 0) : Type 0 where
  pub channel_fees : List ChannelFee
  pub sequence_fees : kv.Store Coin
  pub world : World

-- What the keeper was built with.
pub record Senders : Type 0 where
  pub authority : Bytes
  pub addresses : List Bytes

-- findChannelParams
unfoldable pub find_channel_params : List ChannelFee → Bytes → Option ChannelFee
find_channel_params [] channel_id = none
find_channel_params (fee ∷ fees) channel_id =
    if eq_bytes fee.channel channel_id then some fee else find_channel_params fees channel_id

-- findCoinByDenom
unfoldable pub find_coin_by_denom : List CoinItem → Bytes → Option CoinItem
find_coin_by_denom [] denom = none
find_coin_by_denom (coin ∷ coins) denom =
    if eq_bytes coin.min_fee.denom denom then some coin else find_coin_by_denom coins denom

-- contains
unfoldable pub contains : List Bytes → Bytes → Bool
contains [] element = false
contains (v ∷ arr) element =
    let rest = contains arr element in if eq_bytes v element then true else rest

-- A write through the pointer that findChannelParams returned.
unfoldable pub update_channel :
    Bytes → (ChannelFee → ChannelFee) → List ChannelFee → List ChannelFee
update_channel channel_id f [] = []
update_channel channel_id f (fee ∷ fees) =
    let rest = update_channel channel_id f fees in
    if eq_bytes fee.channel channel_id then f fee ∷ fees else fee ∷ rest

-- A write through the pointer that findCoinByDenom returned.
unfoldable pub update_coin : Bytes → CoinItem → List CoinItem → List CoinItem
update_coin denom item [] = []
update_coin denom item (coin ∷ coins) =
    let rest = update_coin denom item coins in
    if eq_bytes coin.min_fee.denom denom then item ∷ coins else coin ∷ rest

-- The loops of RemoveIBCFeeConfig and RemoveAllowedIbcToken, which take out the first match.
unfoldable pub remove_channel : Bytes → List ChannelFee → List ChannelFee
remove_channel channel_id [] = []
remove_channel channel_id (fee ∷ fees) =
    let rest = remove_channel channel_id fees in
    if eq_bytes fee.channel channel_id then fees else fee ∷ rest

unfoldable pub remove_coin : Bytes → List CoinItem → List CoinItem
remove_coin denom [] = []
remove_coin denom (coin ∷ coins) =
    let rest = remove_coin denom coins in
    if eq_bytes coin.min_fee.denom denom then coins else coin ∷ rest

-- Whether a sender is neither the authority nor on the list of addresses.
abbrev is_stranger : Senders → Bytes → Bool
is_stranger senders sender =
    not (contains senders.addresses sender || eq_bytes senders.authority sender)

-- The fees after AddIBCFeeConfig.
unfoldable pub configured : Bytes → Bytes → ℤ → List ChannelFee → List ChannelFee
configured channel_id fee_address timeout fees = elim (find_channel_params fees channel_id) [
  | some _ ↦
      update_channel channel_id
        (λ fee. record fee { fee_address = fee_address; min_timeout_timestamp = timeout }) fees
  | none ↦
      fees
      ++ (record {
        channel = channel_id;
        allowed_tokens = [];
        fee_address = fee_address;
        min_timeout_timestamp = timeout;
      })
        ∷ []
]

-- The tokens of a channel after AddAllowedIbcToken.
unfoldable pub allowed : CoinItem → List CoinItem → List CoinItem
allowed item coins = elim (find_coin_by_denom coins item.min_fee.denom) [
  | some _ ↦ update_coin item.min_fee.denom item coins
  | none ↦ coins ++ item ∷ []
]

-- GetSequenceKey, without the prefix.
unfoldable pub get_sequence_key : ℕ → Bytes
get_sequence_key sequence = print_uint64 sequence

module _ ⦃kv : Kv⦄ {World : Type 0} where
  -- GetSequenceFee, SetSequenceFee and DeleteSequenceFee
  unfoldable pub get_sequence_fee : ℕ → State World → Option Coin
  get_sequence_fee sequence s = kv.get (get_sequence_key sequence) s.sequence_fees

  unfoldable pub set_sequence_fee : ℕ → Coin → State World → State World
  set_sequence_fee sequence coin s = record s {
    sequence_fees = kv.set (get_sequence_key sequence) coin s.sequence_fees;
  }

  unfoldable pub delete_sequence_fee : ℕ → State World → State World
  delete_sequence_fee sequence s = record s {
    sequence_fees = kv.delete (get_sequence_key sequence) s.sequence_fees;
  }

  -- GetCoin and GetChannelFeeAddress
  unfoldable pub get_coin : Bytes → Bytes → State World → Option CoinItem
  get_coin channel_id denom s = elim (find_channel_params s.channel_fees channel_id) [
    | none ↦ none
    | some fee ↦ find_coin_by_denom fee.allowed_tokens denom
  ]

  unfoldable pub get_channel_fee_address : Bytes → State World → Bytes
  get_channel_fee_address channel_id s = elim (find_channel_params s.channel_fees channel_id) [
    | none ↦ []
    | some fee ↦ fee.fee_address
  ]

  abbrev set_params : List ChannelFee → State World → State World
  set_params fees s = record s { channel_fees = fees }

  module _ (senders : Senders) where
    -- UpdateCustomIbcParams
    unfoldable pub update_custom_ibc_params :
        Bytes → List ChannelFee → Exec Error (State World) (Unit {0})
    update_custom_ibc_params sender fees = do
      raise_if (not (eq_bytes senders.authority sender)) invalid_signer
      modify (set_params fees)

    -- AddIBCFeeConfig
    unfoldable pub add_ibc_fee_config :
        ⦃sdk : Sdk⦄ → Bytes → Bytes → Bytes → ℤ → Exec Error (State World) (Unit {0})
    unfolding configured
    add_ibc_fee_config ⦃sdk⦄ sender channel_id fee_address timeout = do
      raise_if (is_stranger senders sender) invalid_signer
      elim (sdk.acc_address_from_bech32 fee_address) [
        | none ↦ raise invalid_address
        | some _ ↦
            modify (λ s. set_params (configured channel_id fee_address timeout s.channel_fees) s)
      ]

    -- RemoveIBCFeeConfig
    unfoldable pub remove_ibc_fee_config : Bytes → Bytes → Exec Error (State World) (Unit {0})
    remove_ibc_fee_config sender channel_id = do
      raise_if (is_stranger senders sender) invalid_signer
      modify (λ s. set_params (remove_channel channel_id s.channel_fees) s)

    -- AddAllowedIbcToken
    unfoldable pub add_allowed_ibc_token :
        Bytes → Bytes → CoinItem → Exec Error (State World) (Unit {0})
    unfolding allowed
    add_allowed_ibc_token sender channel_id item = do
      raise_if (is_stranger senders sender) invalid_signer
      found ← gets (λ s. find_channel_params s.channel_fees channel_id)
      elim found [
        | none ↦ raise channel_fee_not_found
        | some _ ↦ modify (λ s.
            set_params
              (update_channel channel_id
                (λ fee. record fee { allowed_tokens = allowed item fee.allowed_tokens })
                s.channel_fees)
              s)
      ]

    -- RemoveAllowedIbcToken
    unfoldable pub remove_allowed_ibc_token :
        Bytes → Bytes → Bytes → Exec Error (State World) (Unit {0})
    remove_allowed_ibc_token sender channel_id denom = do
      raise_if (is_stranger senders sender) invalid_signer
      found ← gets (λ s. find_channel_params s.channel_fees channel_id)
      elim found [
        | none ↦ raise channel_fee_not_found
        | some _ ↦ modify (λ s.
            set_params
              (update_channel channel_id
                (λ fee. record fee { allowed_tokens = remove_coin denom fee.allowed_tokens })
                s.channel_fees)
              s)
      ]
