-- ===== src/TransferMiddleware/Ledger.antt =====
-- An abstract view of the bank: by how much a call changes the balance of each address in each
-- denom, and the supply of each denom. BankLaws has what the SDK's bank documents of its calls; the
-- lemmas say what the calls of the relay come to together.
use composable_centauri.Base.{◌≡◌, if◌then◌else◌}
use composable_centauri.Base.Int.{ℤ, pos, ◌+ℤ◌, ◌-ℤ◌, int_laws}
use composable_centauri.Base.Bytes.{Bytes, eq_bytes}
use composable_centauri.Base.Exec.{ok, err}
use composable_centauri.Sdk.{DenomTrace}
use composable_centauri.Fees.Config.{Coin}
use composable_centauri.Fees.Transfer.{new_coins}
use composable_centauri.TransferMiddleware.Host.{Host, Failure}

pub record Change : Type 0 where
  pub balance_by : Bytes → Bytes → ℤ
  pub supply_by : Bytes → ℤ

-- How much of a denom a coin is.
unfoldable pub amount_in : Bytes → Coin → ℤ
amount_in denom coin = if eq_bytes coin.denom denom then coin.amount else pos 0

-- What an address gets of a coin that is paid to another.
unfoldable pub paid : Bytes → Coin → Bytes → Bytes → ℤ
unfolding amount_in
paid to coin address denom = if eq_bytes to address then amount_in denom coin else pos 0

abbrev pub no_change : Change
no_change = record { balance_by = λ a d. pos 0; supply_by = λ d. pos 0 }

-- A coin goes from an address to another.
abbrev pub move : Bytes → Bytes → Coin → Change
move from to coin = record {
  balance_by = λ a d. paid to coin a d -ℤ paid from coin a d;
  supply_by = λ d. pos 0;
}

-- A new coin is made, for an address.
abbrev pub issue : Bytes → Coin → Change
issue to coin = record { balance_by = paid to coin; supply_by = λ d. amount_in d coin }

-- A coin of an address ends.
abbrev pub destroy : Bytes → Coin → Change
destroy from coin = record {
  balance_by = λ a d. pos 0 -ℤ paid from coin a d;
  supply_by = λ d. pos 0 -ℤ amount_in d coin;
}

infixl 30 ◌and_then◌
abbrev pub ◌and_then◌ : Change → Change → Change
c and_then e = record {
  balance_by = λ a d. c.balance_by a d +ℤ e.balance_by a d;
  supply_by = λ d. c.supply_by d +ℤ e.supply_by d;
}

+ℤ_assoc : (x y z : ℤ) → x +ℤ y +ℤ z ≡ x +ℤ (y +ℤ z)
+ℤ_assoc x y z = omega int_laws

add_zero : (x : ℤ) → x ≡ x +ℤ pos 0
add_zero x = omega int_laws

through : (x y z : ℤ) → x +ℤ (y +ℤ (z -ℤ y)) ≡ x +ℤ z
through x y z = omega int_laws

into : (x y z : ℤ) → x +ℤ (y -ℤ z +ℤ (pos 0 -ℤ y)) ≡ x +ℤ (pos 0 -ℤ z)
into x y z = omega int_laws

zero_after : (x y : ℤ) → x +ℤ (y +ℤ pos 0) ≡ x +ℤ y
zero_after x y = omega int_laws

zero_before : (x y : ℤ) → x +ℤ (pos 0 +ℤ y) ≡ x +ℤ y
zero_before x y = omega int_laws

module _ ⦃host : Host⦄ where
  -- The bank's books of two moments differ by a change.
  pub record Changes (w w' : host.World) (c : Change) : Type 0 where
    pub balances :
        (a d : Bytes) → host.get_balance a d w' ≡ host.get_balance a d w +ℤ c.balance_by a d
    pub supplies : (d : Bytes) → host.get_supply d w' ≡ host.get_supply d w +ℤ c.supply_by d

  pub record BankLaws : Type 0 where
    pub send_coins-moves :
        (from to : Bytes) (coin : Coin) (w w' : host.World)
        → host.send_coins from to (new_coins coin) w ≡ (ok tt, w')
        → Changes w w' (move from to coin)
    pub mint_coins-issues :
        (name : Bytes) (coin : Coin) (w w' : host.World)
        → host.mint_coins name (new_coins coin) w ≡ (ok tt, w')
        → Changes w w' (issue (host.get_module_address name) coin)
    pub burn_coins-destroys :
        (name : Bytes) (coin : Coin) (w w' : host.World)
        → host.burn_coins name (new_coins coin) w ≡ (ok tt, w')
        → Changes w w' (destroy (host.get_module_address name) coin)
    pub burn_coins-refused :
        (name : Bytes) (coin : Coin) (e : Failure) (w w' : host.World)
        → host.burn_coins name (new_coins coin) w ≡ (err e, w')
        → Changes w w' no_change
    pub send_coins_from_module_to_account-moves :
        (name to : Bytes) (coin : Coin) (w w' : host.World)
        → host.send_coins_from_module_to_account name to (new_coins coin) w ≡ (ok tt, w')
        → Changes w w' (move (host.get_module_address name) to coin)
    pub send_coins_from_account_to_module-moves :
        (from name : Bytes) (coin : Coin) (w w' : host.World)
        → host.send_coins_from_account_to_module from name (new_coins coin) w ≡ (ok tt, w')
        → Changes w w' (move from (host.get_module_address name) coin)
    pub set_denom_trace-keeps :
        (trace : DenomTrace) (w : host.World) → Changes w (host.set_denom_trace trace w) no_change

  -- Two changes, one after the other.
  pub Changes-and_then :
      (u v w : host.World) (c e : Change)
      → Changes u v c
      → Changes v w e
      → Changes u w (c and_then e)
  Changes-and_then u v w c e h k = record {
    balances = λ a d. rw (k.balances a d, h.balances a d) (+ℤ_assoc _ _ _);
    supplies = λ d. rw (k.supplies d, h.supplies d) (+ℤ_assoc _ _ _);
  }

  pub no_change-Changes : (w : host.World) → Changes w w no_change
  no_change-Changes w = record { balances = λ a d. add_zero _; supplies = λ d. add_zero _ }

  pub after_no_change :
      (v w : host.World) (c : Change) → Changes v w (no_change and_then c) → Changes v w c
  after_no_change v w c h = record {
    balances = λ a d. rw (h.balances a d) (zero_before _ _);
    supplies = λ d. rw (h.supplies d) (zero_before _ _);
  }

  pub before_no_change :
      (v w : host.World) (c : Change) → Changes v w (c and_then no_change) → Changes v w c
  before_no_change v w c h = record {
    balances = λ a d. rw (h.balances a d) (zero_after _ _);
    supplies = λ d. rw (h.supplies d) (zero_after _ _);
  }

  -- What a module mints and pays out is issued to whom it pays.
  pub issue-move :
      (v w : host.World) (by to : Bytes) (coin : Coin)
      → Changes v w (issue by coin and_then move by to coin)
      → Changes v w (issue to coin)
  issue-move v w by to coin h = record {
    balances = λ a d. rw (h.balances a d) (through _ _ _);
    supplies = λ d. rw (h.supplies d) (zero_after _ _);
  }

  -- What a module takes in and burns is destroyed with whom it takes from.
  pub move-destroy :
      (v w : host.World) (from by : Bytes) (coin : Coin)
      → Changes v w (move from by coin and_then destroy by coin)
      → Changes v w (destroy from coin)
  move-destroy v w from by coin h = record {
    balances = λ a d. rw (h.balances a d) (into _ _ _);
    supplies = λ d. rw (h.supplies d) (zero_before _ _);
  }
