-- ===== src/RateLimit/Packet/Undo.antt =====
-- A packet that fails is undone: the acknowledgement or the timeout takes back what the send wrote.
use composable_centauri.Base.{ℕ, ◌≡◌, refl, inl, inr, true, false, some, arith, Bool, ◌∙◌, sym}
use composable_centauri.Base.Int.{ℤ, ◌-ℤ◌, +ℤ_cancel}
use composable_centauri.Base.Bytes.{Bytes, eq_bytes_iff, eq_bytes_refl}
use composable_centauri.Base.Exec.{ok, err, Result-cases}
use composable_centauri.Kv.{Kv}
use composable_centauri.RateLimit.State.{packet_send, RateLimit, Error, State}
use composable_centauri.RateLimit.Keys.{get_rate_limit_item_key, get_pending_send_packet_key}
use composable_centauri.RateLimit.Keeper.{
  RateLimitedPacketInfo, get_rate_limit, set_rate_limit, check_rate_limit_and_update_flow,
  check_packet_sent_during_current_quota, undo_send_packet, set_pending_send_packet,
  remove_pending_send_packet,
}
use composable_centauri.RateLimit.Keeper.Check.{sent, check_rate_limit_and_update_flow-send}
use composable_centauri.RateLimit.Invariant.Limits.{IsKeyed, key_of, set_rate_limit-get}
use composable_centauri.Sdk.{Sdk, Packet, ack_error}
use composable_centauri.RateLimit.Packet.{
  record_send, parse_packet_info, own_channel, send_rate_limited_packet,
  timeout_rate_limited_packet, acknowledge_rate_limited_packet, settle_acknowledgement,
}

module _ ⦃kv : Kv⦄ where
  -- Two states hold the same limits and the same pending packets.
  abbrev pub SameStores : State → State → Type 0
  SameStores s t =
      ((k : Bytes) → kv.get k t.rate_limits ≡ kv.get k s.rate_limits)
      × ((k : Bytes) → kv.get k t.pending_send_packets ≡ kv.get k s.pending_send_packets)

  pub undo-not_pending :
      (c : Bytes) (n : ℕ) (d : Bytes) (a : ℤ) (s : State)
      → check_packet_sent_during_current_quota c n s ≡ false
      → undo_send_packet c n d a s ≡ (ok tt, s)
  unfolding undo_send_packet
  undo-not_pending c n d a s h = ground arith

  pub undo-pending :
      (c : Bytes) (n : ℕ) (d : Bytes) (a : ℤ) (r : RateLimit) (s : State)
      → check_packet_sent_during_current_quota c n s ≡ true
      → get_rate_limit d c s ≡ some r
      → undo_send_packet c n d a s ≡ (
        ok tt,
        remove_pending_send_packet c n (
            set_rate_limit (record r { flow = record r.flow { outflow = r.flow.outflow -ℤ a } }) s),
      )
  unfolding undo_send_packet
  undo-pending c n d a r s h e = ground arith

  sent-taken_back :
      (r : RateLimit) (a : ℤ)
      → let after = sent r a in
        ◌≡◌ {A = RateLimit}
          (record after { flow = record after.flow { outflow = after.flow.outflow -ℤ a } })
          r
  sent-taken_back r a = rw (+ℤ_cancel r.flow.outflow a)

  set_pending-check :
      (c : Bytes) (n : ℕ) (s : State)
      → check_packet_sent_during_current_quota c n (set_pending_send_packet c n s) ≡ true
  unfolding check_packet_sent_during_current_quota set_pending_send_packet
  set_pending-check c n s =
      let key : Bytes = get_pending_send_packet_key c n in
      ground (arith, kv.get-set key key 1 s.pending_send_packets, eq_bytes_refl key)

  set_pending-limit :
      (c : Bytes) (n : ℕ) (d : Bytes) (r : RateLimit) (s : State)
      → key_of r ≡ get_rate_limit_item_key d c
      → get_rate_limit d c (set_pending_send_packet c n (set_rate_limit r s)) ≡ some r
  unfolding get_rate_limit set_pending_send_packet
  set_pending-limit c n d r s same = ground (
    arith,
    set_rate_limit-get r (get_rate_limit_item_key d c) s,
    eq_bytes_iff (key_of r) (get_rate_limit_item_key d c),
  )

  undo-sent :
      (p : RateLimitedPacketInfo) (n : ℕ) (r : RateLimit) (s : State)
      → IsKeyed s
      → get_rate_limit p.denom p.channel_id s ≡ some r
      → check_packet_sent_during_current_quota p.channel_id n s ≡ false
      → let after = set_pending_send_packet p.channel_id n (set_rate_limit (sent r p.amount) s) in
        undo_send_packet p.channel_id n p.denom p.amount after
        ≡ (ok tt, remove_pending_send_packet p.channel_id n (set_rate_limit r after))
  unfolding get_rate_limit
  undo-sent p n r s k found fresh =
      let after : State =
        set_pending_send_packet p.channel_id n (set_rate_limit (sent r p.amount) s) in
      let same_key : key_of r ≡ get_rate_limit_item_key p.denom p.channel_id = k _ r found in
      undo-pending p.channel_id n p.denom p.amount (sent r p.amount) after
        (set_pending-check p.channel_id n (set_rate_limit (sent r p.amount) s))
        (set_pending-limit p.channel_id n p.denom (sent r p.amount) s same_key)
      ∙ rw (sent-taken_back r p.amount)

  stores-restored :
      (c : Bytes) (n : ℕ) (r r' : RateLimit) (s : State)
      → kv.get (key_of r) s.rate_limits ≡ some r
      → key_of r' ≡ key_of r
      → check_packet_sent_during_current_quota c n s ≡ false
      → SameStores s (
          remove_pending_send_packet c n
            (set_rate_limit r (set_pending_send_packet c n (set_rate_limit r' s))))
  unfolding remove_pending_send_packet set_pending_send_packet
      check_packet_sent_during_current_quota set_rate_limit
  stores-restored c n r r' s found same fresh = (
    λ k. ground (
      arith,
      kv.get-set (key_of r) k r (kv.set (key_of r') r' s.rate_limits),
      kv.get-set (key_of r') k r' s.rate_limits,
      eq_bytes_iff (key_of r) k,
    ),
    λ k. ground (
      arith,
      kv.get-delete (get_pending_send_packet_key c n) k
          (kv.set (get_pending_send_packet_key c n) 1 s.pending_send_packets),
      kv.get-set (get_pending_send_packet_key c n) k 1 s.pending_send_packets,
      eq_bytes_iff (get_pending_send_packet_key c n) k,
    ),
  )

  own_limit :
      (p : RateLimitedPacketInfo) (r : RateLimit) (s : State)
      → IsKeyed s
      → get_rate_limit p.denom p.channel_id s ≡ some r
      → kv.get (key_of r) s.rate_limits ≡ some r
  unfolding get_rate_limit
  own_limit p r s k found = rw (k _ r found) found

  -- A packet that was sent, counted or not, and then undone.
  pub check-then-undo :
      (p : RateLimitedPacketInfo) (n : ℕ) (s : State) {counted : Bool} {t : State}
      → IsKeyed s
      → check_packet_sent_during_current_quota p.channel_id n s ≡ false
      → check_rate_limit_and_update_flow packet_send p s ≡ (ok counted, t)
      → let (result, undone) =
          undo_send_packet p.channel_id n p.denom p.amount (record_send p n counted t) in
        (result ≡ ok tt) × SameStores s undone
  unfolding record_send
  check-then-undo p n s {counted} {t} k fresh e = elim (check_rate_limit_and_update_flow-send p s) [
    | inl (_, passed) ↦
        let counts : counted ≡ false = ground arith in
        let same : t ≡ s = ground arith in
        rw (counts, same, undo-not_pending p.channel_id n p.denom p.amount s fresh)
          (refl, ((λ j. refl), (λ j. refl)))
    | inr (r, found, inl (_, passed)) ↦
        let counts : counted ≡ true = ground arith in
        let same : t ≡ set_rate_limit (sent r p.amount) s = ground arith in
        rw (counts, same, undo-sent p n r s k found fresh)
          (
            refl,
            stores-restored p.channel_id n r (sent r p.amount) s (own_limit p r s k found) refl
                fresh,
          )
    | inr (r, found, inr (_, denied)) ↦ absurd (ground arith)
  ]

module _ ⦃sdk : Sdk⦄ ⦃kv : Kv⦄ where
  parse-channel :
      (packet : Packet) {p : RateLimitedPacketInfo}
      → parse_packet_info packet packet_send ≡ ok p
      → p.channel_id ≡ packet.source_channel
  unfolding parse_packet_info own_channel
  parse-channel packet e = ground arith

  send-counted :
      (packet : Packet) {p : RateLimitedPacketInfo} (counted : Bool) (t s : State)
      → parse_packet_info packet packet_send ≡ ok p
      → check_rate_limit_and_update_flow packet_send p s ≡ (ok counted, t)
      → send_rate_limited_packet packet s ≡ (ok tt, record_send p packet.sequence counted t)
  unfolding send_rate_limited_packet
  send-counted packet counted t s e c = ground arith

  send-denied :
      (packet : Packet) {p : RateLimitedPacketInfo} (x : Error) (s : State)
      → parse_packet_info packet packet_send ≡ ok p
      → (check_rate_limit_and_update_flow packet_send p s).0 ≡ err x
      → (send_rate_limited_packet packet s).0 ≡ err x
  unfolding send_rate_limited_packet
  send-denied packet x s e c = ground arith

  send-unreadable :
      (packet : Packet) (x : Error) (s : State)
      → parse_packet_info packet packet_send ≡ err x
      → (send_rate_limited_packet packet s).0 ≡ err x
  unfolding send_rate_limited_packet
  send-unreadable packet x s e = ground arith

  timeout-parsed :
      (packet : Packet) {p : RateLimitedPacketInfo} (s : State)
      → parse_packet_info packet packet_send ≡ ok p
      → timeout_rate_limited_packet packet s
        ≡ undo_send_packet p.channel_id packet.sequence p.denom p.amount s
  unfolding timeout_rate_limited_packet
  timeout-parsed packet s e = rw e

  ack_error-parsed :
      (packet : Packet) {p : RateLimitedPacketInfo} (ack reason : Bytes) (s : State)
      → parse_packet_info packet packet_send ≡ ok p
      → sdk.unmarshal_acknowledgement ack ≡ some (ack_error reason)
      → acknowledge_rate_limited_packet packet ack s
        ≡ undo_send_packet p.channel_id packet.sequence p.denom p.amount s
  unfolding acknowledge_rate_limited_packet settle_acknowledgement
  ack_error-parsed packet ack reason s e a = ground arith

  -- A send that came back without an error, then the packet's timeout or an error acknowledgement,
  -- leave every limit and every pending packet as they were before the send, if limits stand under
  -- their own keys and the sequence number was not pending before; neither of the two fails.
  pub send_rate_limited_packet-undone :
      (packet : Packet) (ack reason : Bytes) (s : State)
      → IsKeyed s
      → check_packet_sent_during_current_quota packet.source_channel packet.sequence s ≡ false
      → (send_rate_limited_packet packet s).0 ≡ ok tt
      → sdk.unmarshal_acknowledgement ack ≡ some (ack_error reason)
      → let sent_state = (send_rate_limited_packet packet s).1 in
        let timed_out = timeout_rate_limited_packet packet sent_state in
        let failed = acknowledge_rate_limited_packet packet ack sent_state in
        (timed_out.0 ≡ ok tt)
        × (failed.0 ≡ ok tt)
        × SameStores s timed_out.1
        × SameStores s failed.1
  send_rate_limited_packet-undone packet ack reason s k fresh sent_ok refused =
      elim (Result-cases (parse_packet_info packet packet_send)) [
        | inr (x, e) ↦
            let fails : err x ≡ ok tt = sym (send-unreadable packet x s e) ∙ sent_ok in
            absurd (ground arith)
        | inl (p, e) ↦ elim (Result-cases (check_rate_limit_and_update_flow packet_send p s).0) [
          | inr (x, c) ↦
              let fails : err x ≡ ok tt = sym (send-denied packet x s e c) ∙ sent_ok in
              absurd (ground arith)
          | inl (counted, c) ↦
              let t : State = (check_rate_limit_and_update_flow packet_send p s).1 in
              let checked : check_rate_limit_and_update_flow packet_send p s ≡ (ok counted, t) =
                ground arith in
              let (done, same) =
                check-then-undo p packet.sequence s k (rw (parse-channel packet e) fresh) checked in
              rw
                (
                  send-counted packet counted t s e checked,
                  timeout-parsed packet (record_send p packet.sequence counted t) e,
                  ack_error-parsed packet ack reason (record_send p packet.sequence counted t) e
                      refused,
                )
                (done, done, same, same)
        ]
      ]
