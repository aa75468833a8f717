-- ===== src/RateLimit/Query.antt =====
-- The queries (x/ratelimit/keeper/grpc_query.go).
use composable_centauri.Base.{Bool, Option, List, [], ◌∷◌, if◌then◌else◌}
use composable_centauri.Base.Bytes.{Bytes, eq_bytes}
use composable_centauri.Base.Exec.{Result, ok, err}
use composable_centauri.Kv.{Kv}
use composable_centauri.RateLimit.State.{
  RateLimit, WhitelistedAddressPair, Error, invalid_client_state, State,
}
use composable_centauri.RateLimit.Keeper.{
  get_all_rate_limits, get_all_whitelisted_address_pairs, get_rate_limit,
}

-- What GetChannelClientState of the channel keeper answers for a channel: an error, the state of a
-- client that is not Tendermint's, or a Tendermint client's chain id.
pub data ClientState : Type 0 where
  no_client : ClientState
  other_client : ClientState
  tendermint : Bytes → ClientState

-- The loop of RateLimitsByChannelID
unfoldable pub on_channel : Bytes → List RateLimit → List RateLimit
on_channel channel_id [] = []
on_channel channel_id (r ∷ rest) =
    let found = on_channel channel_id rest in
    if eq_bytes r.path.channel_id channel_id then r ∷ found else found

abbrev add_result : Bool → RateLimit → Result Error (List RateLimit) → Result Error (List RateLimit)
add_result b r (ok rest) = ok (if b then r ∷ rest else rest)
add_result b r (err e) = err e

-- The loop of RateLimitsByChainID
unfoldable pub on_chain :
    (Bytes → ClientState) → Bytes → List RateLimit → Result Error (List RateLimit)
on_chain client_of chain_id [] = ok []
on_chain client_of chain_id (r ∷ rest) = elim (client_of r.path.channel_id) [
  | no_client ↦ err invalid_client_state
  | other_client ↦ err invalid_client_state
  | tendermint id ↦ add_result (eq_bytes id chain_id) r (on_chain client_of chain_id rest)
]

module _ ⦃kv : Kv⦄ where
  -- AllRateLimits
  unfoldable pub query_all_rate_limits : State → List RateLimit
  query_all_rate_limits s = get_all_rate_limits s

  -- RateLimit
  unfoldable pub query_rate_limit : Bytes → Bytes → State → Option RateLimit
  query_rate_limit denom channel_id s = get_rate_limit denom channel_id s

  -- RateLimitsByChainID
  unfoldable pub rate_limits_by_chain_id :
      (Bytes → ClientState) → Bytes → State → Result Error (List RateLimit)
  rate_limits_by_chain_id client_of chain_id s = on_chain client_of chain_id (get_all_rate_limits s)

  -- RateLimitsByChannelID
  unfoldable pub rate_limits_by_channel_id : Bytes → State → List RateLimit
  rate_limits_by_channel_id channel_id s = on_channel channel_id (get_all_rate_limits s)

  -- AllWhitelistedAddresses
  unfoldable pub all_whitelisted_addresses : State → List WhitelistedAddressPair
  all_whitelisted_addresses s = get_all_whitelisted_address_pairs s
