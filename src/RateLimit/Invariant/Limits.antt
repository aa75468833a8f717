-- ===== src/RateLimit/Invariant/Limits.antt =====
-- What holds of every stored limit, through the two writes that the module makes.
use composable_centauri.Base.{◌≡◌, ◌<◌, some, inl, inr, arith, if◌then◌else◌, Bool-cases, subst}
use composable_centauri.Base.Int.{pos, ◌≤ℤ◌, ◌-ℤ◌}
use composable_centauri.Base.Bytes.{Bytes, eq_bytes, eq_bytes_iff}
use composable_centauri.Kv.{Kv}
use composable_centauri.RateLimit.State.{RateLimit, State, packet_send}
use composable_centauri.RateLimit.Quota.Bounds.{Admits}
use composable_centauri.RateLimit.Keys.{get_rate_limit_item_key}
use composable_centauri.RateLimit.Keeper.{set_rate_limit}

abbrev pub key_of : RateLimit → Bytes
key_of r = get_rate_limit_item_key r.path.denom r.path.channel_id

-- The net outflow is within what the quota admits to leave, the minimum amount is not negative, the
-- period is not empty and the percentages are percentages.
pub record IsGood (r : RateLimit) : Type 0 where
  pub within :
      Admits packet_send r.quota r.flow.channel_value r.min_rate_limit_amount
        (r.flow.outflow -ℤ r.flow.inflow)
  pub minimum : pos 0 ≤ℤ r.min_rate_limit_amount
  pub period : 0 < r.quota.duration_hours
  pub percents :
      (pos 0 ≤ℤ r.quota.max_percent_send)
      × (r.quota.max_percent_send ≤ℤ pos 100)
      × (pos 0 ≤ℤ r.quota.max_percent_recv)
      × (r.quota.max_percent_recv ≤ℤ pos 100)

module _ ⦃kv : Kv⦄ where
  -- Every limit stands under the key of its own path.
  abbrev pub IsKeyed : State → Type 0
  IsKeyed s = (k : Bytes) (r : RateLimit) → kv.get k s.rate_limits ≡ some r → key_of r ≡ k

  pub record IsSound (s : State) : Type 0 where
    pub keyed : IsKeyed s
    pub good : (k : Bytes) (r : RateLimit) → kv.get k s.rate_limits ≡ some r → IsGood r

  pub set_rate_limit-get :
      (r : RateLimit) (k : Bytes) (s : State)
      → kv.get k (set_rate_limit r s).rate_limits
        ≡ (if eq_bytes (key_of r) k then some r else kv.get k s.rate_limits)
  unfolding set_rate_limit
  set_rate_limit-get r k s = kv.get-set (key_of r) k r s.rate_limits

  pub set_rate_limit-IsKeyed :
      (r : RateLimit) (s : State) → IsKeyed s → IsKeyed (set_rate_limit r s)
  set_rate_limit-IsKeyed r s h k r' e =
      ground (arith, set_rate_limit-get r k s, eq_bytes_iff (key_of r) k, h k r')

  pub set_rate_limit-IsSound :
      (r : RateLimit) (s : State) → IsGood r → IsSound s → IsSound (set_rate_limit r s)
  set_rate_limit-IsSound r s g h = record {
    keyed = set_rate_limit-IsKeyed r s h.keyed;
    good = λ k r' e. elim (Bool-cases (eq_bytes (key_of r) k)) [
      | inl own ↦
          let same : r ≡ r' = ground (arith, set_rate_limit-get r k s) in subst IsGood same g
      | inr others ↦ h.good k r' (ground (arith, set_rate_limit-get r k s))
    ];
  }

  -- Only the limits count.
  pub same_limits-IsSound : (s t : State) → t.rate_limits ≡ s.rate_limits → IsSound s → IsSound t
  same_limits-IsSound s t e h = record { keyed = rw e h.keyed; good = rw e h.good }

  pub delete-IsSound :
      (k : Bytes) (s : State)
      → IsSound s
      → IsSound (record s { rate_limits = kv.delete k s.rate_limits })
  delete-IsSound k s h = record {
    keyed = λ j r e. ground (arith, kv.get-delete k j s.rate_limits, h.keyed j r);
    good = λ j r e. h.good j r (ground (arith, kv.get-delete k j s.rate_limits));
  }
