-- ===== src/Mint/Samples.antt =====
-- A block of a chain with a supply of 10000 tokens, in decimals of two places.
mod Funds
use composable_centauri.Base.{◌≡◌, refl, false, arith}
use composable_centauri.Base.Int.{ℤ, pos, ltb_ℤ, quo, ◌+ℤ◌, ◌-ℤ◌, ◌*ℤ◌}
use composable_centauri.Base.Bytes.{bytes}
use composable_centauri.Fees.Transfer.{quo_raw}
use composable_centauri.Mint.Minter.{Decimals, Minter, Params, next_minter}
use composable_centauri.Mint.Bounds.{next_minter_bounds}

pub lt_self : (a : ℤ) → ltb_ℤ a a ≡ false
lt_self a = ground arith

instance abbrev pub two_places : Decimals
two_places = record {
  Decimal = ℤ;
  one_dec = pos 100;
  smallest_dec = pos 1;
  new_dec = λ n. n *ℤ pos 100;
  add = λ a b. a +ℤ b;
  sub = λ a b. a -ℤ b;
  mul = λ a b. quo (a *ℤ b) 100;
  quo = λ a b. quo_raw (a *ℤ pos 100) b;
  mul_int = λ a n. a *ℤ n;
  quo_int = λ a n. quo_raw a n;
  truncate_int = λ a. quo a 100;
  lt = λ a b. ltb_ℤ a b;
  lt_self = lt_self;
}

abbrev pub sample_minter : Minter
sample_minter = record { inflation = pos 13; annual_provisions = pos 0 }

abbrev pub sample_params : Params
sample_params = record {
  mint_denom = bytes "ppica";
  inflation_rate_change = pos 13;
  goal_bonded = pos 67;
  blocks_per_year = 100;
  max_token_per_year = pos 1000;
  min_token_per_year = pos 800;
}

next_minter_bounds_example :
    let inflation = (next_minter sample_minter sample_params (pos 50) (pos 10000)).inflation in
    (ltb_ℤ inflation (quo_raw (pos 800 *ℤ pos 100 *ℤ pos 100) (pos 10000 *ℤ pos 100)) ≡ false)
    × (ltb_ℤ (quo_raw (pos 1000 *ℤ pos 100 *ℤ pos 100) (pos 10000 *ℤ pos 100)) inflation ≡ false)
unfolding ◌*ℤ◌ quo_raw quo
next_minter_bounds_example =
    next_minter_bounds sample_minter sample_params (pos 50) (pos 10000) refl refl
