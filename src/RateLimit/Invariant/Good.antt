-- ===== src/RateLimit/Invariant/Good.antt =====
-- The limits that the operations write are good where the limits that they read were.
use composable_centauri.Base.{◌≡◌, inl, inr, ◌<◌, arith}
use composable_centauri.Base.Int.{ℤ, pos, ◌-ℤ◌, ◌≤ℤ◌, int_laws}
use composable_centauri.RateLimit.State.{packet_send, RateLimit}
use composable_centauri.RateLimit.Quota.Bounds.{threshold_minimum, Admits}
use composable_centauri.RateLimit.Keeper.Check.{sent, received, AdmitsSend}
use composable_centauri.RateLimit.Invariant.Limits.{IsGood}

pub sent-IsGood : (r : RateLimit) (a : ℤ) → IsGood r → AdmitsSend r a → IsGood (sent r a)
sent-IsGood r a g (inl zero_value) = record {
  within = inl zero_value;
  minimum = g.minimum;
  period = g.period;
  percents = g.percents;
}
sent-IsGood r a g (inr fits) = record {
  within = inr (omega (int_laws, fits));
  minimum = g.minimum;
  period = g.period;
  percents = g.percents;
}

lower-Admits :
    (r : RateLimit) (net : ℤ)
    → IsGood r
    → net ≤ℤ r.flow.outflow -ℤ r.flow.inflow
    → Admits packet_send r.quota r.flow.channel_value r.min_rate_limit_amount net
lower-Admits r net g h = lower g.within
  where
    lower :
        Admits packet_send r.quota r.flow.channel_value r.min_rate_limit_amount
          (r.flow.outflow -ℤ r.flow.inflow)
        → Admits packet_send r.quota r.flow.channel_value r.min_rate_limit_amount net
    lower (inl zero_value) = inl zero_value
    lower (inr fits) = inr (omega (arith, fits))

pub received-IsGood : (r : RateLimit) (a : ℤ) → pos 0 ≤ℤ a → IsGood r → IsGood (received r a)
received-IsGood r a h g = record {
  within = lower-Admits r _ g (omega int_laws);
  minimum = g.minimum;
  period = g.period;
  percents = g.percents;
}

pub undone-IsGood :
    (r : RateLimit) (a : ℤ)
    → pos 0 ≤ℤ a
    → IsGood r
    → IsGood (record r { flow = record r.flow { outflow = r.flow.outflow -ℤ a } })
undone-IsGood r a h g = record {
  within = lower-Admits r _ g (omega int_laws);
  minimum = g.minimum;
  period = g.period;
  percents = g.percents;
}

pub zero_flow-IsGood :
    (r : RateLimit)
    → r.flow.inflow ≡ pos 0
    → r.flow.outflow ≡ pos 0
    → pos 0 ≤ℤ r.min_rate_limit_amount
    → 0 < r.quota.duration_hours
    → (pos 0 ≤ℤ r.quota.max_percent_send)
      × (r.quota.max_percent_send ≤ℤ pos 100)
      × (pos 0 ≤ℤ r.quota.max_percent_recv)
      × (r.quota.max_percent_recv ≤ℤ pos 100)
    → IsGood r
zero_flow-IsGood r i o m d q = record {
  within = inr (
      rw (i, o)
        (omega (
          int_laws,
          threshold_minimum packet_send r.quota r.flow.channel_value r.min_rate_limit_amount,
        )));
  minimum = m;
  period = d;
  percents = q;
}
