-- ===== src/RateLimit/Keys/Distinct.antt =====
-- Which keys are distinct, and what is read back from them.
use mathlib.Core.List.{append_assoc, append_cancel_right}
use composable_centauri.Base.{
  ℕ, zero, suc, ◌^◌, ◌≤◌, ◌<◌, ◌≡◌, refl, sym, some, ◌∙◌, [], ◌∷◌, ◌++◌, length, arith, ap,
  take-append_length, drop-append_length,
}
use composable_centauri.Base.Bytes.{Bytes, bytes}
use composable_centauri.Base.Decimal.{
  parse_uint, parse_uint-print_uint64, Lacks, last_separator, print_uint64, print_uint64-Lacks,
}
use composable_centauri.RateLimit.Keys.{
  get_rate_limit_item_key, get_pending_send_packet_key, copy_into, put_uint64, uint64_from,
  trim_right, pending_packet_of_key,
}

length-copy_into : (n : ℕ) (c : Bytes) → length (copy_into n c) ≡ n
unfolding copy_into
length-copy_into zero c = refl
length-copy_into (suc n) [] = ap suc (length-copy_into n [])
length-copy_into (suc n) (b ∷ c) = ap suc (length-copy_into n c)

trim_right-padding : (n : ℕ) → trim_right (copy_into n []) ≡ []
unfolding copy_into trim_right
trim_right-padding zero = refl
trim_right-padding (suc n) = ground (arith, trim_right-padding n)

trim_right-copy_into :
    (n : ℕ) (c : Bytes) → length c ≤ n → Lacks 0 c → trim_right (copy_into n c) ≡ c
unfolding copy_into trim_right
trim_right-copy_into n [] h k = trim_right-padding n
trim_right-copy_into zero (b ∷ c) h k = absurd (omega arith)
trim_right-copy_into (suc n) (b ∷ c) h k =
    ground (arith, trim_right-copy_into n c (omega arith) k.1)

uint64_from-put_uint64 : (n : ℕ) → n < 2 ^ 64 → uint64_from 0 (put_uint64 n) ≡ n
unfolding uint64_from put_uint64
uint64_from-put_uint64 n h = omega arith

-- The channel and the sequence number are read back from a pending packet's key: the channel has
-- sixteen bytes at most and no null byte, the number fits 64 bits.
pub pending_packet_of_key-key :
    (c : Bytes) (n : ℕ)
    → length c ≤ 16
    → Lacks 0 c
    → n < 2 ^ 64
    → pending_packet_of_key (get_pending_send_packet_key c n) ≡ (c, n)
unfolding pending_packet_of_key get_pending_send_packet_key
pending_packet_of_key-key c n h k m = rw (
  take-append_length 16 (copy_into 16 c) (put_uint64 n) (length-copy_into 16 c),
  drop-append_length 16 (copy_into 16 c) (put_uint64 n) (length-copy_into 16 c),
  trim_right-copy_into 16 c h k,
  uint64_from-put_uint64 n m,
)

-- "channel-" and a number
abbrev pub channel : ℕ → Bytes
channel n = bytes "channel-" ++ print_uint64 n

channel-split :
    (d : Bytes) (n : ℕ) → d ++ channel n ≡ (d ++ bytes "channel") ++ b'-' ∷ print_uint64 n
channel-split d n = sym (append_assoc d (bytes "channel") (b'-' ∷ print_uint64 n))

print_uint64-injective :
    (m n : ℕ) → m < 2 ^ 64 → n < 2 ^ 64 → print_uint64 m ≡ print_uint64 n → m ≡ n
print_uint64-injective m n h k e =
    let same : some m ≡ some n =
      sym (parse_uint-print_uint64 m h) ∙ ap parse_uint e ∙ parse_uint-print_uint64 n k in
    cc

-- Although no separator stands between the parts of its key, two limits on channels named channel-m
-- and channel-n, with 64-bit numbers, share a key only if their denoms and their channels agree.
pub get_rate_limit_item_key-injective :
    (d e : Bytes) (m n : ℕ)
    → m < 2 ^ 64
    → n < 2 ^ 64
    → get_rate_limit_item_key d (channel m) ≡ get_rate_limit_item_key e (channel n)
    → (d ≡ e) × (m ≡ n)
unfolding get_rate_limit_item_key
get_rate_limit_item_key-injective d e m n hm hn h =
    let (front, back) =
      last_separator b'-' (d ++ bytes "channel") (e ++ bytes "channel") (print_uint64 m)
        (print_uint64 n) (print_uint64-Lacks b'-' m (omega arith))
        (print_uint64-Lacks b'-' n (omega arith))
        (sym (channel-split d m) ∙ h ∙ channel-split e n) in
    (append_cancel_right d e (bytes "channel") front, print_uint64-injective m n hm hn back)
