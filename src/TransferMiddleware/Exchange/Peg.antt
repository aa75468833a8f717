-- ===== src/TransferMiddleware/Exchange/Peg.antt =====
-- The peg of a bridged token: the supply of its native denom, less what is escrowed of its IBC denom.
pub mod Steps
use composable_centauri.Base.{
  ℕ, Bool, not, ◌||◌, ◌≡◌, refl, sym, ap, ◌∙◌, subst, ◌≢◌, ◌⊎◌, inl, inr, true, false, ◌&&◌,
  if◌then◌else◌, some, none, [], arith, Bool-cases, Option-cases,
}
use composable_centauri.Base.Int.{ℤ, pos, ◌+ℤ◌, ◌-ℤ◌, int_laws}
use composable_centauri.Base.Bytes.{Bytes, eq_bytes, eq_bytes_iff, eq_bytes_refl}
use composable_centauri.Base.Exec.{ok, err, Exec-cases, Result-cases, lift, pure, ◌>>=◌}
use composable_centauri.Kv.{Kv}
use composable_centauri.Sdk.{Sdk, DenomTrace, Packet, FungibleTokenPacketData}
use composable_centauri.Fees.Config.{Coin}
use composable_centauri.Fees.Transfer.{new_coins}
use composable_centauri.TransferMiddleware.Registry.{Registry, ParachainIbcTokenInfo}
use composable_centauri.TransferMiddleware.Keeper.{
  has_parachain_ibc_token_info_by_native_denom, get_parachain_ibc_token_info_by_native_denom,
  get_native_denom_by_ibc_denom_secondary_index,
}
use composable_centauri.TransferMiddleware.Consistency.{IsConsistent}
use composable_centauri.TransferMiddleware.Host.{
  Host, Failure, MsgTransfer, panicked, new_coin, new_coin-ok, new_coin-is_denom,
}
use composable_centauri.TransferMiddleware.Ledger.{
  Change, Changes, paid, amount_in, destroy, move-destroy, before_no_change, BankLaws, move, issue,
  no_change, ◌and_then◌, Changes-and_then, after_no_change, issue-move, no_change-Changes,
}
use composable_centauri.TransferMiddleware.Relay.{
  module_name, lock_and_mint, lock_and_refund, or_panic, keep_denom_trace, received_trace,
  on_recv_packet, refund_token, Call,
}
use composable_centauri.TransferMiddleware.Ics4Wrapper.{
  Outgoing, ignoring_error, burn_and_release, execute_transfer_msg, override_msg, pass_on,
  handle_override_send_packet_transfer_logic, send_packet,
}
use composable_centauri.TransferMiddleware.Exchange.{exchange}
use composable_centauri.TransferMiddleware.Exchange.Receive.{on_recv_packet-exchanges}
use composable_centauri.TransferMiddleware.Exchange.Refund.{refund_token-exchanges}
use composable_centauri.TransferMiddleware.Exchange.Release.Burn.{
  release, burn_and_release-burnt, BurnsWhatIsTaken,
}

module _ ⦃host : Host⦄ where
  abbrev pub escrow_of : ParachainIbcTokenInfo → Bytes
  escrow_of info = host.get_escrow_address host.port_id info.channel_id

  unfoldable pub peg : ParachainIbcTokenInfo → host.World → ℤ
  peg info w =
      host.get_supply info.native_denom w -ℤ host.get_balance (escrow_of info) info.ibc_denom w

  -- A change adds as much to the supply as to the escrow account.
  unfoldable pub IsBalanced : ParachainIbcTokenInfo → Change → Type 0
  IsBalanced info c = c.supply_by info.native_denom ≡ c.balance_by (escrow_of info) info.ibc_denom

  plus_both : (s b x : ℤ) → s +ℤ x -ℤ (b +ℤ x) ≡ s -ℤ b
  plus_both s b x = omega int_laws

  pub Changes-peg :
      (info : ParachainIbcTokenInfo) (w w' : host.World) (c : Change)
      → Changes w w' c
      → IsBalanced info c
      → peg info w' ≡ peg info w
  unfolding peg IsBalanced
  Changes-peg info w w' c h e =
      rw (h.supplies info.native_denom, h.balances (escrow_of info) info.ibc_denom, e)
        (plus_both _ _ _)

  paid_elsewhere : (to : Bytes) (coin : Coin) (a d : Bytes) → to ≢ a → paid to coin a d ≡ pos 0
  unfolding paid
  paid_elsewhere to coin a d ne = ground (arith, eq_bytes_iff to a)

  paid_otherwise :
      (to : Bytes) (coin : Coin) (a d : Bytes) → coin.denom ≢ d → paid to coin a d ≡ pos 0
  unfolding paid amount_in
  paid_otherwise to coin a d ne = ground (arith, eq_bytes_iff coin.denom d)

  paid_there : (to : Bytes) (coin : Coin) → paid to coin to coin.denom ≡ coin.amount
  unfolding paid amount_in
  paid_there to coin = rw (eq_bytes_refl to, eq_bytes_refl coin.denom) refl

  amount_in_own : (coin : Coin) → amount_in coin.denom coin ≡ coin.amount
  unfolding amount_in
  amount_in_own coin = rw (eq_bytes_refl coin.denom) refl

  amount_in_other : (d : Bytes) (coin : Coin) → coin.denom ≢ d → amount_in d coin ≡ pos 0
  unfolding amount_in
  amount_in_other d coin ne = ground (arith, eq_bytes_iff coin.denom d)

  sums_own : (x : ℤ) → pos 0 +ℤ x ≡ x -ℤ pos 0 +ℤ pos 0
  sums_own x = omega int_laws

  sums_back : (x : ℤ) → pos 0 -ℤ x +ℤ pos 0 ≡ pos 0 -ℤ pos 0 +ℤ (pos 0 -ℤ x)
  sums_back x = omega int_laws

  -- An amount of a token, in its IBC denom and in its native denom.
  abbrev pub ibc_coin : ParachainIbcTokenInfo → ℤ → Coin
  ibc_coin info amount = record { denom = info.ibc_denom; amount = amount }

  abbrev pub native_coin : ParachainIbcTokenInfo → ℤ → Coin
  native_coin info amount = record { denom = info.native_denom; amount = amount }

  module _ ⦃kv : Kv⦄ where
    -- A registered token.
    abbrev pub IsRegistered : Registry → ParachainIbcTokenInfo → Type 0
    IsRegistered r info = kv.get info.native_denom r.info_by_native_denom ≡ some info

    same_native :
        (r : Registry) (i j : ParachainIbcTokenInfo)
        → IsRegistered r i
        → IsRegistered r j
        → j.native_denom ≡ i.native_denom
        → j ≡ i
    same_native r i j hi hj e = ground arith

    same_ibc :
        (r : Registry) (i j : ParachainIbcTokenInfo)
        → IsConsistent r
        → IsRegistered r i
        → IsRegistered r j
        → j.ibc_denom ≡ i.ibc_denom
        → j ≡ i
    same_ibc r i j h hi hj e =
        same_native r i j hi hj
          (ground (arith, h.native i.native_denom i hi, h.native j.native_denom j hj))

    exchange-IsBalanced_own :
        (i : ParachainIbcTokenInfo) (holder : Bytes) (amount : ℤ)
        → holder ≢ escrow_of i
        → IsBalanced i (exchange holder (escrow_of i) (ibc_coin i amount) (native_coin i amount))
    unfolding IsBalanced
    exchange-IsBalanced_own i holder amount ne =
        rw
          (
            paid_elsewhere holder (ibc_coin i amount) (escrow_of i) i.ibc_denom ne,
            paid_elsewhere holder (native_coin i amount) (escrow_of i) i.ibc_denom ne,
            paid_there (escrow_of i) (ibc_coin i amount),
            amount_in_own (native_coin i amount),
          )
          (sums_own amount)

    exchange-IsBalanced_other :
        (i j : ParachainIbcTokenInfo) (holder : Bytes) (amount : ℤ)
        → j.native_denom ≢ i.native_denom
        → j.ibc_denom ≢ i.ibc_denom
        → holder ≢ escrow_of i
        → IsBalanced i (exchange holder (escrow_of j) (ibc_coin j amount) (native_coin j amount))
    unfolding IsBalanced
    exchange-IsBalanced_other i j holder amount nn ni ne =
        rw
          (
            paid_elsewhere holder (ibc_coin j amount) (escrow_of i) i.ibc_denom ne,
            paid_elsewhere holder (native_coin j amount) (escrow_of i) i.ibc_denom ne,
            paid_otherwise (escrow_of j) (ibc_coin j amount) (escrow_of i) i.ibc_denom ni,
            amount_in_other i.native_denom (native_coin j amount) nn,
          )
          (sums_own (pos 0))

    -- Of two registered tokens, one whose native denom and IBC denom both differ, or the same.
    apart :
        (r : Registry) (i j : ParachainIbcTokenInfo)
        → IsConsistent r
        → IsRegistered r i
        → IsRegistered r j
        → (j ≡ i) ⊎ ((j.native_denom ≢ i.native_denom) × (j.ibc_denom ≢ i.ibc_denom))
    apart r i j h hi hj = elim (Bool-cases (eq_bytes j.native_denom i.native_denom)) [
      | inl same ↦
          inl (same_native r i j hi hj ((eq_bytes_iff j.native_denom i.native_denom).0 same))
      | inr other ↦ inr (
        λ e. ground (arith, eq_bytes_iff j.native_denom i.native_denom),
        λ e. ground (arith, eq_bytes_iff j.native_denom i.native_denom, same_ibc r i j h hi hj e),
      )
    ]

    exchange-IsBalanced :
        (r : Registry) (i j : ParachainIbcTokenInfo) (holder : Bytes) (amount : ℤ)
        → IsConsistent r
        → IsRegistered r i
        → IsRegistered r j
        → holder ≢ escrow_of i
        → IsBalanced i (exchange holder (escrow_of j) (ibc_coin j amount) (native_coin j amount))
    exchange-IsBalanced r i j holder amount h hi hj ne = elim (apart r i j h hi hj) [
      | inl same ↦
          subst
            (λ k.
              IsBalanced i
                (exchange holder (escrow_of k) (ibc_coin k amount) (native_coin k amount)))
            (sym same) (exchange-IsBalanced_own i holder amount ne)
      | inr (nn, ni) ↦ exchange-IsBalanced_other i j holder amount nn ni ne
    ]

    release-IsBalanced_own :
        (i : ParachainIbcTokenInfo) (holder : Bytes) (amount : ℤ)
        → holder ≢ escrow_of i
        → i.native_denom ≢ i.ibc_denom
        → IsBalanced i (release holder (escrow_of i) (ibc_coin i amount) (native_coin i amount))
    unfolding IsBalanced
    release-IsBalanced_own i holder amount ne nx =
        rw
          (
            paid_elsewhere holder (ibc_coin i amount) (escrow_of i) i.ibc_denom ne,
            paid_otherwise (escrow_of i) (native_coin i amount) (escrow_of i) i.ibc_denom nx,
            paid_there (escrow_of i) (ibc_coin i amount),
            amount_in_own (native_coin i amount),
          )
          (sums_back amount)

    release-IsBalanced_other :
        (i j : ParachainIbcTokenInfo) (holder : Bytes) (amount : ℤ)
        → j.native_denom ≢ i.native_denom
        → j.ibc_denom ≢ i.ibc_denom
        → holder ≢ escrow_of i
        → j.native_denom ≢ i.ibc_denom
        → IsBalanced i (release holder (escrow_of j) (ibc_coin j amount) (native_coin j amount))
    unfolding IsBalanced
    release-IsBalanced_other i j holder amount nn ni ne nx =
        rw
          (
            paid_elsewhere holder (ibc_coin j amount) (escrow_of i) i.ibc_denom ne,
            paid_otherwise (escrow_of j) (native_coin j amount) (escrow_of i) i.ibc_denom nx,
            paid_otherwise (escrow_of j) (ibc_coin j amount) (escrow_of i) i.ibc_denom ni,
            amount_in_other i.native_denom (native_coin j amount) nn,
          )
          (sums_back (pos 0))

    pub no_change-IsBalanced : (i : ParachainIbcTokenInfo) → IsBalanced i no_change
    unfolding IsBalanced
    no_change-IsBalanced i = refl

    pub exchanged-peg :
        (r : Registry) (i j : ParachainIbcTokenInfo) (holder : Bytes) (amount : ℤ)
        (escrow_address denom : Bytes) (u v : host.World)
        → IsConsistent r
        → IsRegistered r i
        → IsRegistered r j
        → holder ≢ escrow_of i
        → escrow_address ≡ escrow_of j
        → denom ≡ j.ibc_denom
        → Changes u v (
            exchange holder escrow_address
              (record { denom = denom; amount = amount })
              (native_coin j amount))
        → peg i v ≡ peg i u
    exchanged-peg r i j holder amount escrow_address denom u v h hi hj ne at same c =
        Changes-peg i u v _ c (rw (at, same) (exchange-IsBalanced r i j holder amount h hi hj ne))

    pub escrow_same :
        (port channel : Bytes) (j : ParachainIbcTokenInfo)
        → port ≡ host.port_id
        → j.channel_id ≡ channel
        → host.get_escrow_address port channel ≡ escrow_of j
    escrow_same port channel j e f = cc

    -- The native denom of j is not the IBC denom of i.
    pub release-IsBalanced :
        (r : Registry) (i j : ParachainIbcTokenInfo) (holder : Bytes) (amount : ℤ)
        → IsConsistent r
        → IsRegistered r i
        → IsRegistered r j
        → holder ≢ escrow_of i
        → j.native_denom ≢ i.ibc_denom
        → IsBalanced i (release holder (escrow_of j) (ibc_coin j amount) (native_coin j amount))
    release-IsBalanced r i j holder amount h hi hj ne nx = elim (apart r i j h hi hj) [
      | inl same ↦
          subst
            (λ k.
              IsBalanced i
                (release holder (escrow_of k) (ibc_coin k amount) (native_coin k amount)))
            (sym same)
            (release-IsBalanced_own i holder amount ne
              (λ e. nx (ap (λ k. k.native_denom) same ∙ e)))
      | inr (nn, ni) ↦ release-IsBalanced_other i j holder amount nn ni ne nx
    ]
