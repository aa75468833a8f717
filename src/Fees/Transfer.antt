-- ===== src/Fees/Transfer.antt =====
-- Transfer with its fees (custom/ibc-transfer/keeper/msg_server.go and keeper.go).
use composable_centauri.Base.{
  ℕ, suc, true, false, not, ◌&&◌, Option, none, some, List, [], ◌∷◌, if◌then◌else◌,
}
use composable_centauri.Base.Int.{ℤ, pos, negsuc, ◌+ℤ◌, ◌-ℤ◌, quo, ltb_ℤ, leb_ℤ, is_zero}
use composable_centauri.Base.Word.{to_int64}
use composable_centauri.Base.Bytes.{Bytes, bytes, eq_bytes}
use composable_centauri.Base.Exec.{
  Result, ok, err, Exec, pure, gets, modify, raise, raise_if, lift, ◌>>=◌, ◌>>◌,
}
use composable_centauri.Kv.{Kv, lookup}
use composable_centauri.Sdk.{Sdk}
use composable_centauri.Fees.Config.{
  Coin, TxPriorityFee, CoinItem, ChannelFee, Error, State, timeout_in_the_past, timeout_too_soon,
  token_not_allowed, invalid_address, negative_coin, division_by_zero, find_channel_params,
  find_coin_by_denom, set_sequence_fee,
}

-- transfertypes.MsgTransfer, the fields that the fees read.
pub record MsgTransfer : Type 0 where
  pub source_channel : Bytes
  pub token : Coin
  pub sender : Bytes
  pub memo : Bytes
  pub timeout_timestamp : ℕ

-- The rest of the chain: the bank, the transfer module of ibc-go and the JSON decoder.
pub record Chain : Type 1 where
  pub World : Type 0
  pub block_time : ℤ
  -- SendCoins: from, to and the coins.
  pub send_coins : Bytes → Bytes → List Coin → Exec Error World (Unit {0})
  -- Transfer of ibc-go: the sequence number of the packet.
  pub transfer : MsgTransfer → Exec Error World ℕ
  -- The string members of the object that json.Unmarshal reads, none where it fails.
  pub unmarshal_strings : Bytes → Option (List (Bytes × Bytes))

-- QuoRaw: truncated towards zero. The divisor is not zero.
unfoldable pub quo_raw : ℤ → ℤ → ℤ
unfolding quo
quo_raw a (pos d) = quo a d
quo_raw a (negsuc d) = pos 0 -ℤ quo a (suc d)

-- findPriority
unfoldable pub find_priority : List TxPriorityFee → Bytes → Option TxPriorityFee
find_priority [] priority = none
find_priority (p ∷ priorities) priority =
    if eq_bytes p.priority priority then some p else find_priority priorities priority

-- NewCoins of one coin: a coin of nothing is dropped.
abbrev pub new_coins : Coin → List Coin
new_coins coin = if is_zero coin.amount then [] else coin ∷ []

-- The part of the amount that is charged for the minimum fee: all of it where it is less.
unfoldable pub min_charge : ℤ → ℤ → ℤ
min_charge min_fee amount = if ltb_ℤ amount min_fee then amount else min_fee

-- The charge and the amount that is left, after the percentage was taken: in msgServer.Transfer,
-- which spares a percentage of zero.
unfoldable pub msg_server_split : ℤ → ℤ → ℤ → Result Error (ℤ × ℤ)
unfolding quo_raw
msg_server_split percentage charge new_amount =
    if ltb_ℤ (pos 0) new_amount && not (is_zero percentage)
    then (let percentage_charge = quo_raw new_amount percentage in
        ok (charge +ℤ percentage_charge, new_amount -ℤ percentage_charge))
    else ok (charge, new_amount)

-- The same in Keeper.Transfer, which does not.
unfoldable pub keeper_split : ℤ → ℤ → ℤ → Result Error (ℤ × ℤ)
unfolding quo_raw
keeper_split percentage charge new_amount =
    if ltb_ℤ (pos 0) new_amount
    then (if is_zero percentage
        then err division_by_zero
        else (let percentage_charge = quo_raw new_amount percentage in
            ok (charge +ℤ percentage_charge, new_amount -ℤ percentage_charge)))
    else ok (charge, new_amount)

module _ ⦃chain : Chain⦄ where
  -- GetPriority
  unfoldable pub get_priority : Bytes → Option Bytes
  unfolding lookup
  get_priority memo = elim (chain.unmarshal_strings memo) [
    | none ↦ none
    | some members ↦ lookup (bytes "priority") members
  ]

  -- The minimum fee of a token, with the fee of the memo's priority if that is in the same denom.
  unfoldable pub min_fee_of : CoinItem → Bytes → ℤ
  unfolding find_priority get_priority
  min_fee_of coin memo = elim (get_priority memo) [
    | none ↦ coin.min_fee.amount
    | some priority ↦ elim (find_priority coin.tx_priority_fee priority) [
      | none ↦ coin.min_fee.amount
      | some p ↦
          if eq_bytes coin.min_fee.denom p.priority_fee.denom
          then coin.min_fee.amount +ℤ p.priority_fee.amount
          else coin.min_fee.amount
    ]
  ]

  -- The checks of the timeout timestamp.
  unfoldable pub check_timeout : ℤ → ℕ → Result Error (Unit {0})
  unfolding to_int64
  check_timeout min_timeout timestamp =
      if ltb_ℤ (pos 0) min_timeout
      then (if ltb_ℤ (to_int64 timestamp) chain.block_time
          then err timeout_in_the_past
          else if ltb_ℤ (to_int64 timestamp -ℤ chain.block_time) min_timeout
          then err timeout_too_soon
          else ok tt)
      else ok tt

  module _ ⦃sdk : Sdk⦄ ⦃kv : Kv⦄ where
    abbrev pub Action : Type 0 → Type 0
    Action A = Exec Error (State chain.World) A

    -- A call of the bank or of ibc-go, on the rest of the chain.
    abbrev pub on_world : {A : Type 0} → Exec Error chain.World A → Action A
    on_world m s = let (r, w) = m s.world in (r, record s { world = w })

    -- The end of Transfer: the packet is sent, and its charge is kept under its sequence number.
    unfoldable pub send_and_record : MsgTransfer → Coin → Action ℕ
    unfolding set_sequence_fee
    send_and_record msg charge = do
      sequence ← on_world (chain.transfer msg)
      modify (λ s. if is_zero charge.amount then s else set_sequence_fee sequence charge s)
      pure sequence

    -- The charge of Transfer once it is computed: it goes to the fee address, and the rest, if there
    -- is any, is transferred.
    unfoldable pub charge_and_send : ChannelFee → MsgTransfer → ℤ → ℤ → Action ℕ
    unfolding send_and_record
    charge_and_send fee msg charge new_amount = elim (sdk.acc_address_from_bech32 msg.sender) [
      | none ↦ raise invalid_address
      | some sender ↦ elim (sdk.acc_address_from_bech32 fee.fee_address) [
        | none ↦ raise invalid_address
        | some fee_address ↦ do
          raise_if (ltb_ℤ charge (pos 0)) negative_coin
          let coin : Coin = record { denom = msg.token.denom; amount = charge }
          on_world (chain.send_coins sender fee_address (new_coins coin))
          elim (leb_ℤ new_amount (pos 0)) [
            | true ↦ pure 0
            | false ↦
                send_and_record (record msg { token = record msg.token { amount = new_amount } })
                  coin
          ]
      ]
    ]

    -- Transfer, by how the percentage is taken: msgServer.Transfer with `msg_server_split`,
    -- Keeper.Transfer with `keeper_split`.
    unfoldable pub transfer : (ℤ → ℤ → ℤ → Result Error (ℤ × ℤ)) → MsgTransfer → Action ℕ
    unfolding check_timeout min_charge min_fee_of charge_and_send
    transfer split msg = do
      found ← gets (λ s. find_channel_params s.channel_fees msg.source_channel)
      elim found [
        | none ↦ send_and_record msg (record { denom = msg.token.denom; amount = pos 0 })
        | some fee ↦ do
          lift (check_timeout fee.min_timeout_timestamp msg.timeout_timestamp)
          elim (find_coin_by_denom fee.allowed_tokens msg.token.denom) [
            | none ↦ raise token_not_allowed
            | some coin ↦ do
              let charge : ℤ = min_charge (min_fee_of coin msg.memo) msg.token.amount
              (charged, left) ← lift (split coin.percentage charge (msg.token.amount -ℤ charge))
              charge_and_send fee msg charged left
          ]
      ]
