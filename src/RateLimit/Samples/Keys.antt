-- ===== src/RateLimit/Samples/Keys.antt =====
-- Keys and genesis files at concrete values.
use composable_centauri.Base.{ℕ, ◌≡◌, refl, List, [], ◌∷◌, map, arith}
use composable_centauri.Base.Bytes.{Bytes, bytes}
use composable_centauri.Base.Exec.{ok}
use composable_centauri.Kv.Assoc.{assoc_kv}
use composable_centauri.RateLimit.Keys.{get_pending_send_packet_key, pending_packet_of_key}
use composable_centauri.RateLimit.Keys.Distinct.{
  pending_packet_of_key-key, get_rate_limit_item_key-injective,
}
use composable_centauri.Base.Decimal.{Lacks}
use composable_centauri.RateLimit.Genesis.{print_pending_packet, set_pending_packets}
use composable_centauri.RateLimit.Genesis.RoundTrip.{
  set_all, set_pending_packets-print_pending_packet,
}
use composable_centauri.RateLimit.Samples.{no_limits}

c1-Lacks_null : Lacks 0 (bytes "c1")
c1-Lacks_null = (ground arith, (ground arith, tt))

pending_packet_of_key-key_example :
    pending_packet_of_key (get_pending_send_packet_key (bytes "c1") 300) ≡ (bytes "c1", 300)
pending_packet_of_key-key_example =
    pending_packet_of_key-key (bytes "c1") 300 (omega arith) c1-Lacks_null (omega arith)

abbrev one : ℕ
one = 1

get_rate_limit_item_key-injective_example : (bytes "upica" ≡ bytes "upica") × (one ≡ one)
get_rate_limit_item_key-injective_example =
    get_rate_limit_item_key-injective (bytes "upica") (bytes "upica") one one (omega arith)
      (omega arith) refl

abbrev two_packets : List (Bytes × ℕ)
two_packets = (bytes "c1", 3) ∷ (bytes "c1", 40) ∷ []

c1-Lacks_slash : Lacks b'/' (bytes "c1")
c1-Lacks_slash = (ground arith, (ground arith, tt))

set_pending_packets-print_pending_packet_example :
    set_pending_packets (map print_pending_packet two_packets) no_limits
    ≡ (ok tt, set_all two_packets no_limits)
set_pending_packets-print_pending_packet_example =
    set_pending_packets-print_pending_packet two_packets no_limits
      (c1-Lacks_slash, omega arith, (c1-Lacks_slash, omega arith, tt))
