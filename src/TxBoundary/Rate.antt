-- ===== src/TxBoundary/Rate.antt =====
-- How fast an account may delegate: the limit is a bucket that leaks at the rate of the boundary.
pub mod Account
use composable_centauri.Base.{
  ℕ, zero, suc, ◌+◌, ◌-◌, ◌*◌, ◌/◌, ◌≤◌, ◌<◌, ◌^◌, ◌==◌, ◌≡◌, refl, inl, inr, ◌⊎◌, Bool, true,
  false, not, none, some, List, [], ◌∷◌, arith, Bool-cases, if◌then◌else◌, ltb,
}
use composable_centauri.Base.Int.{ℤ, pos, leb_ℤ, eqb_ℤ}
use composable_centauri.Base.Word.{
  to_uint64, to_int64, add_int64, sub_uint64, to_int64-small, to_uint64-small, add_int64-small,
  sub_uint64-small,
}
use composable_centauri.Base.Bytes.{Bytes, eq_bytes, eq_bytes_iff, eq_bytes_refl}
use composable_centauri.Base.Exec.{Result, ok, err, then-ok}
use composable_centauri.Kv.{Kv}
use composable_centauri.Sdk.{Sdk}
use composable_centauri.TxBoundary.Keeper.{
  Boundary, LimitPerAddr, State, lowered, generated_tx, regenerated, next_uint64, regenerate,
  update_limit_per_addr, get_limit_per_addr, set_limit_per_addr, increment_delegate_count,
  increment_redelegate_count, get_delegate_boundary, get_redelegate_boundary,
}
use composable_centauri.TxBoundary.Ante.{valid_delegate_msg, valid_redelegate_msg}

-- The limit after the update that a message begins with.
abbrev pub settled : ℕ → Boundary → LimitPerAddr → LimitPerAddr
settled h b l =
    if leb_ℤ (add_int64 l.latest_update_block (to_int64 b.blocks_per_generation)) (pos h)
    then regenerated (pos h) b l
    else l

quotient_bound : (d b : ℕ) → 0 < b → b * (d / b) ≤ d
quotient_bound d b h = grind arith

pub product_le : (b x y : ℕ) → x ≤ y → b * x ≤ b * y
product_le b x y h = grind arith

pub product_suc : (b x : ℕ) → b * suc x ≡ b * x + b
product_suc b x = grind arith

generated_le : (d b : ℕ) → generated_tx d b ≤ d / b
unfolding generated_tx
generated_le d b = ground arith

generated_bound : (d b : ℕ) → 0 < b → b * generated_tx d b ≤ d
generated_bound d b h =
    omega (arith, product_le b (generated_tx d b) (d / b) (generated_le d b), quotient_bound d b h)

lowered_bound : (g c : ℕ) → (c ≤ lowered g c + g) × (lowered g c ≤ c)
unfolding lowered
lowered_bound g c = (ground arith, ground arith)

lowered_rate : (b g c : ℕ) → b * c ≤ b * lowered g c + b * g
lowered_rate b g c =
    omega
      (arith, product_le b c (lowered g c + g) (lowered_bound g c).0, product_sum b (lowered g c) g)
  where
    product_sum : (b x y : ℕ) → b * (x + y) ≡ b * x + b * y
    product_sum b x y = grind arith

abbrev pub limit : ℕ → ℕ → ℕ → LimitPerAddr
limit c r m = record { delegate_count = c; reledegate_count = r; latest_update_block = pos m }

regenerated-small :
    (m h c r : ℕ) (b : Boundary)
    → m ≤ h
    → h < 2 ^ 62
    → let g = generated_tx (h - m) b.blocks_per_generation in
      regenerated (pos h) b (limit c r m) ≡ limit (lowered g c) (lowered g r) h
unfolding regenerated
regenerated-small m h c r b order small =
    rw
      (
        to_uint64-small h (omega arith),
        to_uint64-small m (omega arith),
        sub_uint64-small h m order (omega arith),
      )
      refl

settled-late :
    (m h c r : ℕ) (b : Boundary)
    → m + b.blocks_per_generation ≤ h
    → h < 2 ^ 62
    → let g = generated_tx (h - m) b.blocks_per_generation in
      settled h b (limit c r m) ≡ limit (lowered g c) (lowered g r) h
settled-late m h c r b late small =
    rw
      (
        to_int64-small b.blocks_per_generation (omega arith),
        add_int64-small m b.blocks_per_generation (omega arith),
      )
      (ground (arith, regenerated-small m h c r b (omega arith) small))

settled-early :
    (m h c r : ℕ) (b : Boundary)
    → h < m + b.blocks_per_generation
    → h < 2 ^ 62
    → m ≤ h
    → b.blocks_per_generation < 2 ^ 62
    → settled h b (limit c r m) ≡ limit c r m
settled-early m h c r b early small order short =
    rw
      (
        to_int64-small b.blocks_per_generation (omega arith),
        add_int64-small m b.blocks_per_generation (omega arith),
      )
      (ground arith)

-- What an update does between two blocks m and h: the count sinks by one for each generation of
-- blocks at most, and the block of the last update moves forward.
pub record Leaks (b : Boundary) (m h c : ℕ) (l : LimitPerAddr) : Type 0 where
  pub count : ℕ
  pub recount : ℕ
  pub block : ℕ
  pub same : l ≡ limit count recount block
  pub after : m ≤ block
  pub before : block ≤ h
  pub lower : count ≤ c
  pub rate : b.blocks_per_generation * c ≤ b.blocks_per_generation * count + (block - m)

early_or_late : (h e : ℕ) → (h < e) ⊎ (e ≤ h)
early_or_late h e = ground arith

pub settled-Leaks :
    (m h c r : ℕ) (b : Boundary)
    → m ≤ h
    → h < 2 ^ 62
    → 0 < b.blocks_per_generation
    → b.blocks_per_generation < 2 ^ 62
    → Leaks b m h c (settled h b (limit c r m))
settled-Leaks m h c r b order small positive short =
    elim (early_or_late h (m + b.blocks_per_generation)) [
      | inl early ↦ record {
        count = c;
        recount = r;
        block = m;
        same = settled-early m h c r b early small order short;
        after = omega arith;
        before = order;
        lower = omega arith;
        rate = omega arith;
      }
      | inr late ↦
          let g : ℕ = generated_tx (h - m) b.blocks_per_generation in
          record {
            count = lowered g c;
            recount = lowered g r;
            block = h;
            same = settled-late m h c r b late small;
            after = order;
            before = omega arith;
            lower = (lowered_bound g c).1;
            rate = omega (
              arith,
              lowered_rate b.blocks_per_generation g c,
              generated_bound (h - m) b.blocks_per_generation positive,
            );
          }
    ]

module _ ⦃kv : Kv⦄ where
  pub update-found :
      (h c r m : ℕ) (a : Bytes) (b : Boundary) (s : State)
      → kv.get a s.limits ≡ some (limit c r m)
      → s.delegate_boundary ≡ some b
      → 0 < m
      → 0 < b.blocks_per_generation
      → let (result, t) = update_limit_per_addr (pos h) a s in
        (result ≡ ok tt)
        × (kv.get a t.limits ≡ some (settled h b (limit c r m)))
        × (t.delegate_boundary ≡ some b)
        × (t.redelegate_boundary ≡ s.redelegate_boundary)
  unfolding update_limit_per_addr regenerate get_limit_per_addr get_delegate_boundary
  update-found h c r m a b s found bound positive generation =
      let set_found : kv.get a (kv.set a (regenerated (pos h) b (limit c r m)) s.limits)
          ≡ some (regenerated (pos h) b (limit c r m)) =
        ground
          (arith, kv.get-set a a (regenerated (pos h) b (limit c r m)) s.limits, eq_bytes_refl a) in
      (ground arith, ground (arith, set_found), ground arith, ground arith)
