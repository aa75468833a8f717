-- ===== src/RateLimit/Genesis.antt =====
-- The genesis state of x/ratelimit (x/ratelimit/keeper/genesis.go, x/ratelimit/types/genesis.go).
pub mod RoundTrip
use composable_centauri.Base.{ℕ, Option, none, some, List, [], ◌∷◌, ◌++◌, map}
use composable_centauri.Base.Bytes.{Bytes}
use composable_centauri.Base.Decimal.{split, parse_uint, print_uint64}
use composable_centauri.Base.Exec.{pure, raise, modify, ◌>>◌}
use composable_centauri.Kv.{Kv}
use composable_centauri.RateLimit.State.{
  RateLimit, WhitelistedAddressPair, EpochInfo, invalid_pending_packet, State, Context, Action,
}
use composable_centauri.RateLimit.Keeper.{
  set_rate_limit, set_whitelisted_address_pair, set_pending_send_packet, get_all_rate_limits,
  get_all_whitelisted_address_pairs, get_all_pending_send_packets,
}
use composable_centauri.RateLimit.Epoch.{
  day_epoch, epoch_hour_period, new_genesis_epoch_info, add_epoch_info,
}

-- GenesisState; Params has no fields.
pub record GenesisState : Type 0 where
  pub rate_limits : List RateLimit
  pub whitelisted_address_pairs : List WhitelistedAddressPair
  pub pending_send_packet_sequence_numbers : List Bytes
  pub epochs : List EpochInfo

-- DefaultGenesisState
unfoldable pub default_genesis_state : GenesisState
default_genesis_state = record {
  rate_limits = [];
  whitelisted_address_pairs = [];
  pending_send_packet_sequence_numbers = [];
  epochs = new_genesis_epoch_info day_epoch epoch_hour_period ∷ [];
}

-- fmt.Sprintf("%s/%d", channelID, sequence)
unfoldable pub print_pending_packet : Bytes × ℕ → Bytes
print_pending_packet (channel_id, sequence) = channel_id ++ b'/' ∷ print_uint64 sequence

abbrev with_channel : Bytes → Option ℕ → Option (Bytes × ℕ)
with_channel channel_id none = none
with_channel channel_id (some sequence) = some (channel_id, sequence)

abbrev packet_of_pieces : List Bytes → Option (Bytes × ℕ)
packet_of_pieces [] = none
packet_of_pieces (channel_id ∷ []) = none
packet_of_pieces (channel_id ∷ sequence ∷ []) = with_channel channel_id (parse_uint sequence)
packet_of_pieces (channel_id ∷ sequence ∷ piece ∷ pieces) = none

-- The body of InitGenesis's loop over the pending packets, up to the panics.
unfoldable pub parse_pending_packet : Bytes → Option (Bytes × ℕ)
parse_pending_packet packet_id = packet_of_pieces (split b'/' packet_id)

module _ ⦃kv : Kv⦄ where
  unfoldable pub set_rate_limits : List RateLimit → State → State
  set_rate_limits [] s = s
  set_rate_limits (r ∷ rest) s = set_rate_limits rest (set_rate_limit r s)

  unfoldable pub set_whitelisted_address_pairs : List WhitelistedAddressPair → State → State
  set_whitelisted_address_pairs [] s = s
  set_whitelisted_address_pairs (pair ∷ rest) s =
      set_whitelisted_address_pairs rest (set_whitelisted_address_pair pair s)

  abbrev set_parsed_packet : Option (Bytes × ℕ) → Action (Unit {0})
  set_parsed_packet none = raise invalid_pending_packet
  set_parsed_packet (some (channel_id, sequence)) =
      modify (set_pending_send_packet channel_id sequence)

  unfoldable pub set_pending_packets : List Bytes → Action (Unit {0})
  set_pending_packets [] = pure tt
  set_pending_packets (packet_id ∷ rest) = do
    set_parsed_packet (parse_pending_packet packet_id)
    set_pending_packets rest

  -- ExportGenesis: the epochs are those of the default state.
  unfoldable pub export_genesis : State → GenesisState
  unfolding get_all_rate_limits get_all_whitelisted_address_pairs get_all_pending_send_packets
  export_genesis s = record default_genesis_state {
    rate_limits = get_all_rate_limits s;
    whitelisted_address_pairs = get_all_whitelisted_address_pairs s;
    pending_send_packet_sequence_numbers =
        map print_pending_packet (get_all_pending_send_packets s);
  }

  module _ ⦃ctx : Context⦄ where
    unfoldable pub add_epoch_infos : List EpochInfo → Action (Unit {0})
    add_epoch_infos [] = pure tt
    add_epoch_infos (e ∷ rest) = do add_epoch_info e; add_epoch_infos rest

    -- InitGenesis
    unfoldable pub init_genesis : GenesisState → Action (Unit {0})
    init_genesis g = do
      modify (set_rate_limits g.rate_limits)
      modify (set_whitelisted_address_pairs g.whitelisted_address_pairs)
      set_pending_packets g.pending_send_packet_sequence_numbers
      add_epoch_infos g.epochs
