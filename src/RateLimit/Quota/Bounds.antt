-- ===== src/RateLimit/Quota/Bounds.antt =====
-- What a quota admits: the bounds of the threshold, and the flow after an admitted packet.
use composable_centauri.Base.{
  ◌≡◌, refl, ◌≤◌, ◌*◌, ◌/◌, ◌⊎◌, inl, inr, true, false, Bool-cases, arith, ℕ,
}
use composable_centauri.Base.Int.{
  zero_value, nonzero_value, ℤ, pos, negsuc, ◌+ℤ◌, ◌-ℤ◌, ◌*ℤ◌, quo, ◌≤ℤ◌, ◌<ℤ◌, is_zero, ltb_ℤ,
}
use composable_centauri.Base.Exec.{ok, err}
use composable_centauri.RateLimit.State.{
  PacketDirection, packet_send, packet_recv, Quota, Flow, quota_exceeded,
}
use composable_centauri.RateLimit.Quota.{
  percent, threshold, check_exceeds_quota, add_inflow, add_outflow,
}

-- What the quota of a direction admits as a net flow.
abbrev pub Admits : PacketDirection → Quota → ℤ → ℤ → ℤ → Type 0
Admits direction q channel_value minimum net =
    (channel_value ≡ pos 0) ⊎ (net ≤ℤ threshold direction q channel_value minimum)

-- What it refuses.
abbrev pub Refuses : PacketDirection → Quota → ℤ → ℤ → ℤ → Type 0
Refuses direction q channel_value minimum net =
    (¬ (channel_value ≡ pos 0)) × (threshold direction q channel_value minimum <ℤ net)

check-cases :
    (d : PacketDirection) (q : Quota) (net v m : ℤ)
    → ((check_exceeds_quota d q net v m ≡ false) × Admits d q v m net)
      ⊎ ((check_exceeds_quota d q net v m ≡ true) × Refuses d q v m net)
unfolding check_exceeds_quota
check-cases d q net v m = elim (Bool-cases (is_zero v)) [
  | inl z ↦ inl (rw z, inl (zero_value v z))
  | inr nz ↦ elim (Bool-cases (ltb_ℤ (threshold d q v m) net)) [
    | inl over ↦ inr (rw nz over, (nonzero_value v nz, ground arith))
    | inr within ↦ inl (rw nz within, inr (ground arith))
  ]
]

-- A packet out is admitted exactly if the channel's value is zero or the net outflow with it is
-- within the threshold; then the outflow alone grows, by the amount; otherwise the error is that the
-- quota is exceeded.
pub add_outflow-cases :
    (f : Flow) (a : ℤ) (q : Quota) (m : ℤ)
    → (Admits packet_send q f.channel_value m (f.outflow -ℤ f.inflow +ℤ a)
        × (add_outflow f a q m ≡ ok (record f { outflow = f.outflow +ℤ a })))
      ⊎ (Refuses packet_send q f.channel_value m (f.outflow -ℤ f.inflow +ℤ a)
          × (add_outflow f a q m ≡ err quota_exceeded))
unfolding add_outflow
add_outflow-cases f a q m =
    elim (check-cases packet_send q (f.outflow -ℤ f.inflow +ℤ a) f.channel_value m) [
      | inl (fits, h) ↦ inl (h, rw fits)
      | inr (over, h) ↦ inr (h, rw over)
    ]

-- A packet in is admitted exactly if the channel's value is zero or the net inflow with it is within
-- the threshold; then the inflow alone grows, by the amount; otherwise the error is that the quota
-- is exceeded.
pub add_inflow-cases :
    (f : Flow) (a : ℤ) (q : Quota) (m : ℤ)
    → (Admits packet_recv q f.channel_value m (f.inflow -ℤ f.outflow +ℤ a)
        × (add_inflow f a q m ≡ ok (record f { inflow = f.inflow +ℤ a })))
      ⊎ (Refuses packet_recv q f.channel_value m (f.inflow -ℤ f.outflow +ℤ a)
          × (add_inflow f a q m ≡ err quota_exceeded))
unfolding add_inflow
add_inflow-cases f a q m =
    elim (check-cases packet_recv q (f.inflow -ℤ f.outflow +ℤ a) f.channel_value m) [
      | inl (fits, h) ↦ inl (h, rw fits)
      | inr (over, h) ↦ inr (h, rw over)
    ]

share-le : (v p : ℕ) → p ≤ 100 → v * p / 100 ≤ v
share-le v p h = grind arith

*ℤ-pos : (n k : ℕ) → pos n *ℤ pos k ≡ pos (n * k)
unfolding ◌*ℤ◌
*ℤ-pos n k = ground arith

share_bounds :
    (v p : ℤ)
    → pos 0 ≤ℤ v
    → pos 0 ≤ℤ p
    → p ≤ℤ pos 100
    → (pos 0 ≤ℤ quo (v *ℤ p) 100) × (quo (v *ℤ p) 100 ≤ℤ v)
unfolding quo
share_bounds (negsuc n) p h hp hq = absurd (omega arith)
share_bounds (pos n) (negsuc k) h hp hq = absurd (omega arith)
share_bounds (pos n) (pos k) h hp hq = rw (*ℤ-pos n k) (omega arith, omega (arith, share-le n k))

-- With a channel value that is not negative and a percentage from 0 to 100, the threshold is not
-- negative, not below the minimum amount, and either within the channel's value or the minimum
-- amount itself.
threshold_bounds :
    (d : PacketDirection) (q : Quota) (v m : ℤ)
    → pos 0 ≤ℤ v
    → pos 0 ≤ℤ percent d q
    → percent d q ≤ℤ pos 100
    → (m ≤ℤ threshold d q v m)
      × (pos 0 ≤ℤ threshold d q v m)
      × ((threshold d q v m ≤ℤ v) ⊎ (threshold d q v m ≡ m))
unfolding threshold
threshold_bounds d q v m hv hp hq =
    let share : ℤ = quo (v *ℤ percent d q) 100 in
    let (nonneg, small) = share_bounds v (percent d q) hv hp hq in
    elim (Bool-cases (ltb_ℤ share m)) [
      | inl raised ↦ rw raised (ground arith, ground arith, inr refl)
      | inr kept ↦ rw kept (ground arith, nonneg, inl small)
    ]

-- The threshold is never below the minimum amount.
pub threshold_minimum : (d : PacketDirection) (q : Quota) (v m : ℤ) → m ≤ℤ threshold d q v m
unfolding threshold
threshold_minimum d q v m = elim (Bool-cases (ltb_ℤ (quo (v *ℤ percent d q) 100) m)) [
  | inl raised ↦ rw raised (omega arith)
  | inr kept ↦ rw kept (ground arith)
]
