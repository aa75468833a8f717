-- ===== src/RateLimit/Invariant/Resets.antt =====
-- Resets and removals keep the stored limits good.
use composable_centauri.Base.{◌≡◌, refl, inl, inr, not, some, none, arith, Option-cases}
use composable_centauri.Base.Int.{ℤ}
use composable_centauri.Base.Bytes.{Bytes, eq_bytes}
use composable_centauri.Base.Exec.{ok, err, raise_if-keeps}
use composable_centauri.Kv.{Kv}
use composable_centauri.RateLimit.State.{
  RateLimit, State, Context, invalid_signer, rate_limit_not_found,
}
use composable_centauri.RateLimit.Quota.{new_flow}
use composable_centauri.RateLimit.Keeper.{
  get_rate_limit, set_rate_limit, limited_denom, reset_rate_limit, remove_rate_limit,
  get_channel_value, remove_all_channel_pending_send_packets,
}
use composable_centauri.RateLimit.Msgs.{remove_transfer_rate_limit, reset_transfer_rate_limit}
use composable_centauri.RateLimit.Invariant.Limits.{
  IsGood, IsSound, set_rate_limit-IsSound, same_limits-IsSound, delete-IsSound,
}
use composable_centauri.RateLimit.Invariant.Packets.{found-IsGood}
use composable_centauri.RateLimit.Invariant.Good.{zero_flow-IsGood}

module _ ⦃kv : Kv⦄ ⦃ctx : Context⦄ where
  reset-IsGood : (r : RateLimit) (v : ℤ) → IsGood r → IsGood (record r { flow = new_flow v })
  unfolding new_flow
  reset-IsGood r v g = zero_flow-IsGood _ refl refl g.minimum g.period g.percents

  pub reset_rate_limit-missing :
      (d c : Bytes) (s : State)
      → get_rate_limit (limited_denom d c s) c s ≡ none
      → reset_rate_limit d c s ≡ (err rate_limit_not_found, s)
  unfolding reset_rate_limit
  reset_rate_limit-missing d c s e = ground arith

  pub reset_rate_limit-found :
      (d c : Bytes) {r : RateLimit} (s : State)
      → get_rate_limit (limited_denom d c s) c s ≡ some r
      → reset_rate_limit d c s ≡ (
        ok tt,
        remove_all_channel_pending_send_packets c (
            set_rate_limit
              (record r { flow = new_flow (get_channel_value (limited_denom d c s)) })
              s),
      )
  unfolding reset_rate_limit
  reset_rate_limit-found d c s e = ground arith

  remove_all-limits :
      (c : Bytes) (s : State)
      → (remove_all_channel_pending_send_packets c s).rate_limits ≡ s.rate_limits
  unfolding remove_all_channel_pending_send_packets
  remove_all-limits c s = refl

  pub reset_rate_limit-IsSound :
      (d c : Bytes) (s : State) → IsSound s → IsSound (reset_rate_limit d c s).1
  reset_rate_limit-IsSound d c s h =
      elim (Option-cases (get_rate_limit (limited_denom d c s) c s)) [
        | inl missing ↦ rw (reset_rate_limit-missing d c s missing) h
        | inr (r, found) ↦ rw (reset_rate_limit-found d c s found) (
            same_limits-IsSound _ _ (remove_all-limits c _) (
              set_rate_limit-IsSound _ s
                (reset-IsGood r _ (found-IsGood (limited_denom d c s) c s h found)) h))
      ]

  remove_rate_limit-IsSound :
      (d c : Bytes) (s : State) → IsSound s → IsSound (remove_rate_limit d c s).1
  unfolding remove_rate_limit
  remove_rate_limit-IsSound d c s h =
      elim (Option-cases (get_rate_limit (limited_denom d c s) c s)) [
        | inl missing ↦ rw (missing, remove_rate_limit) h
        | inr (r, found) ↦ rw (found, remove_rate_limit) (delete-IsSound _ s h)
      ]

  pub remove-IsSound :
      (sender d c : Bytes) (s : State)
      → IsSound s
      → IsSound (remove_transfer_rate_limit sender d c s).1
  unfolding remove_transfer_rate_limit
  remove-IsSound sender d c s h =
      raise_if-keeps IsSound (not (eq_bytes ctx.authority sender)) invalid_signer
        (remove_rate_limit d c) s h (remove_rate_limit-IsSound d c s h)

  pub reset-IsSound :
      (sender d c : Bytes) (s : State)
      → IsSound s
      → IsSound (reset_transfer_rate_limit sender d c s).1
  unfolding reset_transfer_rate_limit
  reset-IsSound sender d c s h =
      raise_if-keeps IsSound (not (eq_bytes ctx.authority sender)) invalid_signer
        (reset_rate_limit d c) s h (reset_rate_limit-IsSound d c s h)
