-- ===== src/RateLimit/State.antt =====
-- The records of x/ratelimit (x/ratelimit/types/ratelimit.pb.go, epoch.pb.go), its errors and
-- events, the keeper's state and the block that it runs in.
use composable_centauri.Base.{ℕ, Bool, List}
use composable_centauri.Base.Int.{ℤ}
use composable_centauri.Base.Bytes.{Bytes}
use composable_centauri.Base.Exec.{Exec}
use composable_centauri.Kv.{Kv}
use composable_centauri.TransferMiddleware.Registry.{Registry}

-- `other` is any value of the enumeration's type that has no name.
pub data PacketDirection : Type 0 where
  packet_send packet_recv other : PacketDirection

pub record ChannelPath : Type 0 where
  pub denom : Bytes
  pub channel_id : Bytes

pub record Quota : Type 0 where
  pub max_percent_send : ℤ
  pub max_percent_recv : ℤ
  pub duration_hours : ℕ

pub record Flow : Type 0 where
  pub inflow : ℤ
  pub outflow : ℤ
  pub channel_value : ℤ

pub record RateLimit : Type 0 where
  pub path : ChannelPath
  pub quota : Quota
  pub flow : Flow
  pub min_rate_limit_amount : ℤ

pub record WhitelistedAddressPair : Type 0 where
  pub sender : Bytes
  pub receiver : Bytes

-- Times and durations are in nanoseconds; the epoch number and the height are int64.
pub record EpochInfo : Type 0 where
  pub identifier : Bytes
  pub start_time : ℤ
  pub duration : ℤ
  pub current_epoch : ℤ
  pub current_epoch_start_time : ℤ
  pub epoch_counting_started : Bool
  pub current_epoch_start_height : ℤ

pub data Error : Type 0 where
  rate_limit_not_found rate_limit_already_exists zero_channel_value quota_exceeded : Error
  invalid_request invalid_signer invalid_authority_address invalid_channel_identifier : Error
  packet_data_unreadable unknown_request invalid_acknowledgement invalid_client_state : Error
  invalid_epoch epoch_already_exists epoch_not_found : Error
  -- An error of the channel keeper or of the application below.
  from_below : Error
  -- panics
  division_by_zero invalid_pending_packet : Error

pub data Event : Type 0 where
  transfer_denied : Bytes → Bytes → PacketDirection → ℤ → Error → Event
  epoch_start : ℤ → ℤ → Event

-- The keeper's store, each key prefix on its own, with the events of the block and the registry of
-- x/transfermiddleware, which the keeper reads.
pub record State ⦃kv : Kv⦄ : Type 0 where
  pub rate_limits : kv.Store RateLimit
  pub pending_send_packets : kv.Store ℕ
  pub address_whitelist : kv.Store WhitelistedAddressPair
  pub epochs : kv.Store EpochInfo
  pub events : List Event
  pub registry : Registry

-- The block, and what the keeper was built with: the authority and the bank's supplies.
pub record Context : Type 0 where
  pub block_time : ℤ
  pub block_height : ℤ
  pub authority : Bytes
  pub get_supply : Bytes → ℤ

abbrev pub Action : ⦃kv : Kv⦄ → Type 0 → Type 0
Action A = Exec Error State A
