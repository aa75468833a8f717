-- ===== src/RateLimit/Genesis/RoundTrip.antt =====
-- The names under which a genesis file carries the pending packets.
use composable_centauri.Base.{ℕ, ◌≡◌, ◌<◌, ◌^◌, ◌∷◌, List, [], some, refl, arith, map}
use composable_centauri.Base.Bytes.{Bytes}
use composable_centauri.Base.Exec.{ok}
use composable_centauri.Base.Decimal.{
  Lacks, split-append, print_uint64, print_uint64-Lacks, parse_uint-print_uint64,
}
use composable_centauri.Kv.{Kv}
use composable_centauri.RateLimit.State.{State}
use composable_centauri.RateLimit.Keeper.{set_pending_send_packet}
use composable_centauri.RateLimit.Genesis.{
  print_pending_packet, parse_pending_packet, set_pending_packets,
}

-- What the export prints for a pending packet, the import reads back, if the channel's name has no
-- slash and the sequence number fits 64 bits.
pub parse_pending_packet-print_pending_packet :
    (c : Bytes) (n : ℕ)
    → Lacks b'/' c
    → n < 2 ^ 64
    → parse_pending_packet (print_pending_packet (c, n)) ≡ some (c, n)
unfolding parse_pending_packet print_pending_packet
parse_pending_packet-print_pending_packet c n h k = rw (
  split-append b'/' c (print_uint64 n) h (print_uint64-Lacks b'/' n (omega arith)),
  parse_uint-print_uint64 n k,
)

module _ ⦃kv : Kv⦄ where
  -- Packets that a genesis file can name.
  abbrev pub ArePrintable : List (Bytes × ℕ) → Type 0
  ArePrintable [] = Unit
  ArePrintable ((c, n) ∷ l) = Lacks b'/' c × (n < 2 ^ 64) × ArePrintable l

  abbrev pub set_all : List (Bytes × ℕ) → State → State
  set_all [] s = s
  set_all ((c, n) ∷ l) s = set_all l (set_pending_send_packet c n s)

  -- An import of exported pending packets, whose channels have no slash and whose sequence numbers
  -- fit 64 bits, does not panic and stores each of them.
  pub set_pending_packets-print_pending_packet :
      (l : List (Bytes × ℕ)) (s : State)
      → ArePrintable l
      → set_pending_packets (map print_pending_packet l) s ≡ (ok tt, set_all l s)
  unfolding set_pending_packets
  set_pending_packets-print_pending_packet [] s h = refl
  set_pending_packets-print_pending_packet ((c, n) ∷ l) s h =
      rw (parse_pending_packet-print_pending_packet c n h.0 h.1)
        (set_pending_packets-print_pending_packet l (set_pending_send_packet c n s) h.2)
