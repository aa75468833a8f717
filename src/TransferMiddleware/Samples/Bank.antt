-- ===== src/TransferMiddleware/Samples/Bank.antt =====
-- A bank whose books are functions, which pays and mints whatever it is told to.
use composable_centauri.Base.{
  ℕ, suc, ◌≡◌, refl, sym, ap, subst, ◌∙◌, inl, inr, true, false, List, [], ◌∷◌, ◌++◌, Bool-cases,
  if-keeps,
}
use composable_centauri.Base.Int.{ℤ, pos, ◌+ℤ◌, ◌-ℤ◌, is_zero, int_laws, zero_value}
use composable_centauri.Base.Bytes.{Bytes, bytes, eq_bytes, has_prefix}
use composable_centauri.Base.Exec.{Exec, ok, err}
use composable_centauri.Fees.Config.{Coin}
use composable_centauri.Fees.Transfer.{new_coins}
use composable_centauri.TransferMiddleware.Host.{Host, Failure}
use composable_centauri.TransferMiddleware.Ledger.{
  Change, Changes, BankLaws, paid, amount_in, move, issue, destroy,
}
use composable_centauri.TransferMiddleware.Exchange.Release.Burn.{BurnsWhatIsTaken}

pub record Books : Type 0 where
  pub balance : Bytes → Bytes → ℤ
  pub supply : Bytes → ℤ
  -- The traces and the packets so far.
  pub traces : List Bytes
  pub packets : ℕ

abbrev pub applied : Change → Books → Books
applied c w = record w {
  balance = λ a d. w.balance a d +ℤ c.balance_by a d;
  supply = λ d. w.supply d +ℤ c.supply_by d;
}

abbrev pub pays : (Coin → Change) → List Coin → Exec Failure Books (Unit {0})
pays f [] w = (ok tt, w)
pays f (coin ∷ coins) w = (ok tt, applied (f coin) w)

instance abbrev pub sample_host : Host
sample_host = record {
  World = Books;
  send_coins = λ from to. pays (move from to);
  mint_coins = λ name. pays (issue name);
  burn_coins = λ name. pays (destroy name);
  send_coins_from_module_to_account = λ name to. pays (move name to);
  send_coins_from_account_to_module = λ from name. pays (move from name);
  get_balance = λ a d w. w.balance a d;
  get_supply = λ d w. w.supply d;
  get_module_address = λ name. name;
  is_denom = λ d. elim d [ [] ↦ false | b ∷ bs ↦ true ];
  port_id = bytes "transfer";
  transfer_module = bytes "transfer";
  get_escrow_address = λ port channel. bytes "escrow/" ++ port ++ bytes "/" ++ channel;
  sender_chain_is_source = λ port channel denom. has_prefix (bytes "here") denom;
  trace_hash = λ t. t.path ++ t.base_denom;
  has_denom_trace = λ hash w. false;
  set_denom_trace = λ t w. record w { traces = (t.path ++ t.base_denom) ∷ w.traces };
  validate_basic = λ msg. true;
  transfer = λ msg w. (ok w.packets, record w { packets = suc w.packets });
  send_packet = λ port channel height timestamp payload w.
      (ok w.packets, record w { packets = suc w.packets });
}

nothing_in : (d e : Bytes) → amount_in e (record { denom = d; amount = pos 0 }) ≡ pos 0
unfolding amount_in
nothing_in d e = if-keeps (λ x. x ≡ pos 0) (eq_bytes d e) (pos 0) (pos 0) refl refl

nothing_paid : (to d a e : Bytes) → paid to (record { denom = d; amount = pos 0 }) a e ≡ pos 0
unfolding paid
nothing_paid to d a e = if-keeps (λ x. x ≡ pos 0) (eq_bytes to a) _ (pos 0) (nothing_in d e) refl

-- A call of nothing changes what a coin of nothing changes.
abbrev IsIdle : (Coin → Change) → Type 0
IsIdle f = (d : Bytes) (w : Books) → Changes w w (f (record { denom = d; amount = pos 0 }))

pays_idle :
    (f : Coin → Change) (d : Bytes) (amount : ℤ) (w w' : Books)
    → IsIdle f
    → amount ≡ pos 0
    → w ≡ w'
    → Changes w w' (f (record { denom = d; amount = amount }))
pays_idle f d amount w w' idle zero same = rw (zero, ← same) (idle d w)

pays-none :
    (f : Coin → Change) (coin : Coin) (w : Books)
    → is_zero coin.amount ≡ true
    → pays f (new_coins coin) w ≡ (ok tt, w)
pays-none f coin w e = rw e refl

pays-some :
    (f : Coin → Change) (coin : Coin) (w : Books)
    → is_zero coin.amount ≡ false
    → pays f (new_coins coin) w ≡ (ok tt, applied (f coin) w)
pays-some f coin w e = rw e refl

applied-Changes : (c : Change) (w : Books) → Changes w (applied c w) c
applied-Changes c w = record { balances = λ a d. refl; supplies = λ d. refl }

pays-Changes :
    (f : Coin → Change) (coin : Coin) (w w' : Books)
    → IsIdle f
    → pays f (new_coins coin) w ≡ (ok tt, w')
    → Changes w w' (f coin)
pays-Changes f coin w w' idle e = elim (Bool-cases (is_zero coin.amount)) [
  | inl nothing ↦
      pays_idle f coin.denom coin.amount w w' idle (zero_value coin.amount nothing)
        (ap (λ x. x.1) (sym (pays-none f coin w nothing) ∙ e))
  | inr something ↦
      subst (λ u. Changes w u (f coin)) (ap (λ x. x.1) (sym (pays-some f coin w something) ∙ e))
        (applied-Changes (f coin) w)
]

plus_nothing : (x : ℤ) → x ≡ x +ℤ pos 0
plus_nothing x = omega int_laws

move-IsIdle : (from to : Bytes) → IsIdle (move from to)
unfolding ◌-ℤ◌
move-IsIdle from to d w = record {
  balances = λ a e. rw (nothing_paid to d a e, nothing_paid from d a e) (plus_nothing _);
  supplies = λ e. plus_nothing _;
}

issue-IsIdle : (to : Bytes) → IsIdle (issue to)
issue-IsIdle to d w = record {
  balances = λ a e. rw (nothing_paid to d a e) (plus_nothing _);
  supplies = λ e. rw (nothing_in d e) (plus_nothing _);
}

destroy-IsIdle : (from : Bytes) → IsIdle (destroy from)
unfolding ◌-ℤ◌
destroy-IsIdle from d w = record {
  balances = λ a e. rw (nothing_paid from d a e) (plus_nothing _);
  supplies = λ e. rw (nothing_in d e) (plus_nothing _);
}

pays-returns :
    (f : Coin → Change) (coins : List Coin) (w w' : Books) {x : Failure}
    → ¬ (pays f coins w ≡ (err x, w'))
pays-returns f [] w w' e = cc
pays-returns f (coin ∷ coins) w w' e = cc

pub sample_laws : BankLaws
sample_laws = record {
  send_coins-moves =
      λ from to coin w w' e. pays-Changes (move from to) coin w w' (move-IsIdle from to) e;
  mint_coins-issues = λ name coin w w' e. pays-Changes (issue name) coin w w' (issue-IsIdle name) e;
  burn_coins-destroys =
      λ name coin w w' e. pays-Changes (destroy name) coin w w' (destroy-IsIdle name) e;
  burn_coins-refused =
      λ name coin x w w' e. absurd (pays-returns (destroy name) (new_coins coin) w w' e);
  send_coins_from_module_to_account-moves =
      λ name to coin w w' e. pays-Changes (move name to) coin w w' (move-IsIdle name to) e;
  send_coins_from_account_to_module-moves =
      λ from name coin w w' e. pays-Changes (move from name) coin w w' (move-IsIdle from name) e;
  set_denom_trace-keeps =
      λ trace w. record { balances = λ a d. plus_nothing _; supplies = λ d. plus_nothing _ };
}

returned :
    (f : Coin → Change) (coins : List Coin) (w : Books)
    → (v : Books) × (pays f coins w ≡ (ok tt, v))
returned f [] w = (w, refl)
returned f (coin ∷ coins) w = (applied (f coin) w, refl)

pub sample_burns : BurnsWhatIsTaken
sample_burns = λ from coin w t e. returned (destroy (bytes "transfer")) (new_coins coin) t
