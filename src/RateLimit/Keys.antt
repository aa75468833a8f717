-- ===== src/RateLimit/Keys.antt =====
-- The keys of the keeper's store (x/ratelimit/types/keys.go, and GetRateLimitItemKey of
-- x/ratelimit/keeper/rate_limit.go), and what GetAllPendingSendPackets reads back from one.
pub mod Distinct
use composable_centauri.Base.{
  ℕ, zero, suc, ◌+◌, ◌*◌, ◌/◌, ◌%◌, ◌^◌, [], ◌∷◌, ◌++◌, Bool, true, false, ◌&&◌, ◌==◌, take, drop,
  if◌then◌else◌,
}
use composable_centauri.Base.Bytes.{Bytes}

-- GetRateLimitItemKey: no separator stands between the parts.
unfoldable pub get_rate_limit_item_key : Bytes → Bytes → Bytes
get_rate_limit_item_key denom channel_id = denom ++ channel_id

-- GetAddressWhitelistKey
unfoldable pub get_address_whitelist_key : Bytes → Bytes → Bytes
get_address_whitelist_key sender receiver = sender ++ receiver

-- PendingSendPacketChannelLength
abbrev pub pending_send_packet_channel_length : ℕ
pending_send_packet_channel_length = 16

-- `copy` into a fresh slice of n bytes.
unfoldable pub copy_into : ℕ → Bytes → Bytes
copy_into zero source = []
copy_into (suc n) [] = 0 ∷ copy_into n []
copy_into (suc n) (b ∷ source) = b ∷ copy_into n source

-- binary.BigEndian.PutUint64
unfoldable pub put_uint64 : ℕ → Bytes
put_uint64 n =
    (n / 2 ^ 56 % 256)
    ∷ (n / 2 ^ 48 % 256)
    ∷ (n / 2 ^ 40 % 256)
    ∷ (n / 2 ^ 32 % 256)
    ∷ (n / 2 ^ 24 % 256)
    ∷ (n / 2 ^ 16 % 256)
    ∷ (n / 2 ^ 8 % 256)
    ∷ (n % 256)
    ∷ []

-- binary.BigEndian.Uint64 on the bytes from the given ones on.
unfoldable pub uint64_from : ℕ → Bytes → ℕ
uint64_from acc [] = acc
uint64_from acc (b ∷ bs) = uint64_from (acc * 256 + b) bs

-- GetPendingSendPacketKey
unfoldable pub get_pending_send_packet_key : Bytes → ℕ → Bytes
unfolding copy_into put_uint64
get_pending_send_packet_key channel_id sequence_number =
    copy_into pending_send_packet_channel_length channel_id ++ put_uint64 sequence_number

abbrev is_empty : Bytes → Bool
is_empty [] = true
is_empty (b ∷ bs) = false

-- strings.TrimRight of null bytes
unfoldable pub trim_right : Bytes → Bytes
trim_right [] = []
trim_right (b ∷ bs) = let rest = trim_right bs in if b == 0 && is_empty rest then [] else b ∷ rest

-- The channel and the sequence number that GetAllPendingSendPackets takes from a key.
unfoldable pub pending_packet_of_key : Bytes → Bytes × ℕ
unfolding trim_right uint64_from
pending_packet_of_key key = (
  trim_right (take pending_send_packet_channel_length key),
  uint64_from 0 (drop pending_send_packet_channel_length key),
)
