-- ===== src/Fees/Charge.antt =====
-- What a transfer is charged, and what is left of it.
use composable_centauri.Base.{
  ℕ, zero, suc, ◌/◌, ◌≤◌, ◌≡◌, refl, ◌∙◌, ◌≢◌, inl, inr, ◌⊎◌, not, ◌&&◌, some, arith, Bool-cases,
}
use composable_centauri.Base.Int.{
  ℤ, pos, negsuc, ◌+ℤ◌, ◌-ℤ◌, ◌≤ℤ◌, ◌<ℤ◌, quo, ltb_ℤ, is_zero, int_laws, zero_value, nonzero_value,
}
use composable_centauri.Base.Bytes.{Bytes, eq_bytes_refl}
use composable_centauri.Base.Exec.{Result, ok, err}
use composable_centauri.Kv.{Kv}
use composable_centauri.Sdk.{Sdk}
use composable_centauri.Fees.Config.{
  Error, Coin, CoinItem, ChannelFee, State, division_by_zero, find_channel_params,
  find_coin_by_denom, set_sequence_fee, get_sequence_fee, get_sequence_key,
}
use composable_centauri.Fees.Transfer.{
  Chain, MsgTransfer, quo_raw, min_charge, msg_server_split, keeper_split, check_timeout,
  min_fee_of, charge_and_send, send_and_record, transfer, new_coins,
}

-- A charge and a rest that make up the amount, with the charge at least a minimum.
pub record Divides (amount least charge left : ℤ) : Type 0 where
  pub total : charge +ℤ left ≡ amount
  pub left_nonneg : pos 0 ≤ℤ left
  pub at_least : least ≤ℤ charge
  pub charge_nonneg : pos 0 ≤ℤ charge

quotient_le : (n d : ℕ) → n / d ≤ n
quotient_le n zero = omega arith
quotient_le n (suc d) = grind arith

min_charge_bounds :
    (m a : ℤ) → pos 0 ≤ℤ m → pos 0 ≤ℤ a → (pos 0 ≤ℤ min_charge m a) × (min_charge m a ≤ℤ a)
unfolding min_charge
min_charge_bounds m a hm ha = (ground arith, ground arith)

taken_Divides :
    (c : ℤ) (n p : ℕ)
    → pos 0 ≤ℤ c
    → Divides (c +ℤ pos n) c (c +ℤ pos (n / p)) (pos n -ℤ pos (n / p))
taken_Divides c n p hc = record {
  total = omega int_laws;
  left_nonneg = omega (int_laws, quotient_le n p);
  at_least = omega int_laws;
  charge_nonneg = omega int_laws;
}

split_rest :
    (p c n : ℤ)
    → pos 0 ≤ℤ p
    → pos 0 ≤ℤ c
    → pos 0 ≤ℤ n
    → (charge : ℤ) × (left : ℤ) × (msg_server_split p c n ≡ ok (charge, left))
      × Divides (c +ℤ n) c charge left
unfolding msg_server_split quo_raw quo
split_rest (negsuc p) c n hp hc hn = absurd (omega arith)
split_rest (pos p) c (negsuc n) hp hc hn = absurd (omega arith)
split_rest (pos p) c (pos n) hp hc hn =
    elim (Bool-cases (ltb_ℤ (pos 0) (pos n) && not (is_zero (pos p)))) [
      | inl taken ↦ (c +ℤ pos (n / p), pos n -ℤ pos (n / p), rw taken, taken_Divides c n p hc)
      | inr spared ↦ (
        c,
        pos n,
        rw spared,
        record { total = refl; left_nonneg = hn; at_least = omega arith; charge_nonneg = hc },
      )
    ]

restored : (a c : ℤ) → c +ℤ (a -ℤ c) ≡ a
restored a c = omega int_laws

-- Of an amount and a minimum fee that are not negative, at a percentage that is not negative,
-- msgServer.Transfer charges and keeps parts that make up the amount; neither is negative, and the
-- charge is at least the minimum fee, or all of an amount below that.
pub msg_server_split-Divides :
    (p m a : ℤ)
    → pos 0 ≤ℤ p
    → pos 0 ≤ℤ m
    → pos 0 ≤ℤ a
    → (charge : ℤ) × (left : ℤ) × (msg_server_split p (min_charge m a) (a -ℤ min_charge m a)
        ≡ ok (charge, left))
      × Divides a (min_charge m a) charge left
msg_server_split-Divides p m a hp hm ha =
    let (low, high) = min_charge_bounds m a hm ha in
    let (charge, left, e, d) =
      split_rest p (min_charge m a) (a -ℤ min_charge m a) hp low (omega (int_laws, high)) in
    (
      charge,
      left,
      e,
      record {
        total = d.total ∙ restored a (min_charge m a);
        left_nonneg = d.left_nonneg;
        at_least = d.at_least;
        charge_nonneg = d.charge_nonneg;
      },
    )

-- The two versions of Transfer divide an amount alike, but where the percentage is zero and more
-- than the minimum fee is sent: there Keeper.Transfer panics, and msgServer.Transfer takes no
-- percentage.
pub keeper_split-agrees :
    (p c n : ℤ)
    → ((keeper_split p c n ≡ msg_server_split p c n) × ((n ≤ℤ pos 0) ⊎ (p ≢ pos 0)))
      ⊎ ((keeper_split p c n ≡ err division_by_zero)
          × (msg_server_split p c n ≡ ok (c, n))
          × (p ≡ pos 0)
          × (pos 0 <ℤ n))
unfolding keeper_split msg_server_split
keeper_split-agrees p c n = elim (Bool-cases (ltb_ℤ (pos 0) n)) [
  | inr little ↦ inl (rw little, inl (ground arith))
  | inl much ↦ elim (Bool-cases (is_zero p)) [
    | inl none_taken ↦
        inr (rw (much, none_taken), rw (much, none_taken), zero_value p none_taken, ground arith)
    | inr taken ↦ inl (rw (much, taken), inr (nonzero_value p taken))
  ]
]

module _ ⦃chain : Chain⦄ ⦃sdk : Sdk⦄ ⦃kv : Kv⦄ where
  transfer-found :
      (split : ℤ → ℤ → ℤ → Result Error (ℤ × ℤ)) (msg : MsgTransfer) (fee : ChannelFee)
      (coin : CoinItem) (charge left : ℤ) (s : State chain.World)
      → find_channel_params s.channel_fees msg.source_channel ≡ some fee
      → find_coin_by_denom fee.allowed_tokens msg.token.denom ≡ some coin
      → check_timeout fee.min_timeout_timestamp msg.timeout_timestamp ≡ ok tt
      → let least = min_charge (min_fee_of coin msg.memo) msg.token.amount in
        split coin.percentage least (msg.token.amount -ℤ least) ≡ ok (charge, left)
        → transfer split msg s ≡ charge_and_send fee msg charge left s
  unfolding transfer
  transfer-found split msg fee coin charge left s found allowed timely divided = ground arith

  -- On a channel with fees, for an allowed token and a timeout that is far enough, with an amount, a
  -- minimum fee and a percentage that are not negative, msgServer.Transfer comes down to sending a
  -- charge to the fee address and transferring the rest: parts that make up the amount, neither of
  -- them negative, the charge at least the minimum fee or all of an amount below that.
  pub transfer-Divides :
      (msg : MsgTransfer) (fee : ChannelFee) (coin : CoinItem) (s : State chain.World)
      → find_channel_params s.channel_fees msg.source_channel ≡ some fee
      → find_coin_by_denom fee.allowed_tokens msg.token.denom ≡ some coin
      → check_timeout fee.min_timeout_timestamp msg.timeout_timestamp ≡ ok tt
      → pos 0 ≤ℤ coin.percentage
      → pos 0 ≤ℤ min_fee_of coin msg.memo
      → pos 0 ≤ℤ msg.token.amount
      → (charge : ℤ) × (left : ℤ) × (transfer msg_server_split msg s
          ≡ charge_and_send fee msg charge left s)
        × Divides msg.token.amount
            (min_charge (min_fee_of coin msg.memo) msg.token.amount)
            charge
            left
  transfer-Divides msg fee coin s found allowed timely hp hm ha =
      let (charge, left, divided, d) =
        msg_server_split-Divides coin.percentage (min_fee_of coin msg.memo) msg.token.amount hp hm
          ha in
      (
        charge,
        left,
        transfer-found msg_server_split msg fee coin charge left s found allowed timely divided,
        d,
      )

  -- A positive charge that the bank moves between addresses that decode, and a positive rest, which
  -- ibc-go transfers as the packet number n: the call returns n, and the charge is found under n.
  pub charge_and_send-recorded :
      (fee : ChannelFee) (msg : MsgTransfer) (charge left : ℤ) (from to : Bytes) (n : ℕ)
      (w w' : chain.World) (s : State chain.World)
      → sdk.acc_address_from_bech32 msg.sender ≡ some from
      → sdk.acc_address_from_bech32 fee.fee_address ≡ some to
      → pos 0 <ℤ charge
      → pos 0 <ℤ left
      → let coin : Coin = record { denom = msg.token.denom; amount = charge } in
        chain.send_coins from to (new_coins coin) s.world ≡ (ok tt, w)
        → chain.transfer (record msg { token = record msg.token { amount = left } }) w ≡ (ok n, w')
        → let (result, t) = charge_and_send fee msg charge left s in
          (result ≡ ok n) × (get_sequence_fee n t ≡ some coin) × (t.world ≡ w')
  unfolding charge_and_send send_and_record set_sequence_fee get_sequence_fee
  charge_and_send-recorded fee msg charge left from to n w w' s hf ht hc hl paid sent =
      let coin : Coin = record { denom = msg.token.denom; amount = charge } in
      let key : Bytes = get_sequence_key n in
      (
        ground arith,
        ground (arith, kv.get-set key key coin s.sequence_fees, eq_bytes_refl key),
        ground arith,
      )
