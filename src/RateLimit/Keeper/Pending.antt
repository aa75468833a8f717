-- ===== src/RateLimit/Keeper/Pending.antt =====
-- The pending packets of a channel when its quota is reset.
use composable_centauri.Base.{
  ℕ, zero, suc, ◌≤◌, ◌≡◌, refl, true, false, none, List, [], ◌∷◌, ◌++◌, length, arith,
  if◌then◌else◌,
}
use composable_centauri.Base.Bytes.{Bytes, eq_bytes_iff, has_prefix}
use composable_centauri.Kv.{Kv, lookup}
use composable_centauri.RateLimit.State.{State}
use composable_centauri.RateLimit.Keys.{get_pending_send_packet_key, copy_into, put_uint64}
use composable_centauri.RateLimit.Keeper.{
  delete_with_prefix, remove_all_channel_pending_send_packets,
  check_packet_sent_during_current_quota,
}

module _ ⦃kv : Kv⦄ where
  delete_with_prefix-get :
      (c k : Bytes) (l : List (Bytes × ℕ)) (s : kv.Store ℕ)
      → kv.get k (delete_with_prefix c l s) ≡ (
          if has_prefix c k
          then (elim (lookup k l) [ none ↦ kv.get k s | _ ↦ none ])
          else kv.get k s)
  unfolding delete_with_prefix lookup
  delete_with_prefix-get c k [] s = ground arith
  delete_with_prefix-get c k ((j, v) ∷ l) s = ground (
    arith,
    delete_with_prefix-get c k l (if has_prefix c j then kv.delete j s else s),
    kv.get-delete j k s,
    eq_bytes_iff j k,
  )

  -- A reset deletes exactly the pending packets whose key begins with the channel's bytes.
  pub remove_all_channel_pending_send_packets-get :
      (c k : Bytes) (s : State)
      → kv.get k (remove_all_channel_pending_send_packets c s).pending_send_packets
        ≡ (if has_prefix c k then none else kv.get k s.pending_send_packets)
  unfolding remove_all_channel_pending_send_packets
  remove_all_channel_pending_send_packets-get c k s = ground (
    arith,
    delete_with_prefix-get c k (kv.entries s.pending_send_packets) s.pending_send_packets,
    kv.lookup-entries k s.pending_send_packets,
  )

has_prefix-copy_into :
    (n : ℕ) (c e r : Bytes) → length (c ++ e) ≤ n → has_prefix c (copy_into n (c ++ e) ++ r) ≡ true
unfolding has_prefix copy_into
has_prefix-copy_into n [] e r h = refl
has_prefix-copy_into zero (b ∷ c) e r h = absurd (omega arith)
has_prefix-copy_into (suc n) (b ∷ c) e r h =
    ground (arith, has_prefix-copy_into n c e r (omega arith))

has_prefix-key :
    (c e : Bytes) (n : ℕ)
    → length (c ++ e) ≤ 16
    → has_prefix c (get_pending_send_packet_key (c ++ e) n) ≡ true
unfolding get_pending_send_packet_key
has_prefix-key c e n h = has_prefix-copy_into 16 c e (put_uint64 n) h

module _ ⦃kv : Kv⦄ where
  -- The keys of a channel's packets begin with the bytes of every shorter channel name, and no
  -- separator ends the name: a reset on channel-1 forgets the packets sent on channel-10 too.
  pub remove_all_channel_pending_send_packets-longer :
      (c e : Bytes) (n : ℕ) (s : State)
      → length (c ++ e) ≤ 16
      → check_packet_sent_during_current_quota
          (c ++ e)
          n
          (remove_all_channel_pending_send_packets c s)
        ≡ false
  unfolding check_packet_sent_during_current_quota
  remove_all_channel_pending_send_packets-longer c e n s h = ground (
    arith,
    remove_all_channel_pending_send_packets-get c (get_pending_send_packet_key (c ++ e) n) s,
    has_prefix-key c e n h,
  )
