-- ===== src/RateLimit/Msgs.antt =====
-- The messages of governance and their handlers (x/ratelimit/types/msg.go and
-- x/ratelimit/keeper/msg_server.go).
use composable_centauri.Base.{Bool, not, Option, none, some, ◌||◌, ◌&&◌, ◌==◌, true, false}
use composable_centauri.Base.Int.{ℤ, pos, ltb_ℤ, leb_ℤ, is_zero}
use composable_centauri.Base.Bytes.{Bytes, eq_bytes}
use composable_centauri.Base.Exec.{Exec, raise_if, ◌>>◌}
use composable_centauri.Kv.{Kv}
use composable_centauri.Sdk.{Sdk}
use composable_centauri.RateLimit.State.{
  Error, invalid_signer, invalid_authority_address, invalid_channel_identifier, invalid_request,
  Context, Action,
}
use composable_centauri.RateLimit.Keeper.{
  MsgRateLimit, add_rate_limit, update_rate_limit, remove_rate_limit, reset_rate_limit,
}

abbrev is_none : Option Bytes → Bool
is_none none = true
is_none (some _) = false

-- GT(100) or LT(0)
abbrev out_of_percent : ℤ → Bool
out_of_percent a = ltb_ℤ (pos 100) a || ltb_ℤ a (pos 0)

module _ ⦃sdk : Sdk⦄ where
  -- ValidateBasic of MsgRemoveRateLimit and MsgResetRateLimit, and the head of the two others'.
  unfoldable pub validate_path : {S : Type 0} → Bytes → Bytes → Exec Error S (Unit {0})
  validate_path authority channel_id = do
    raise_if (is_none (sdk.acc_address_from_bech32 authority)) invalid_authority_address
    raise_if (not (sdk.is_channel_identifier channel_id)) invalid_channel_identifier

  -- ValidateBasic of MsgAddRateLimit and MsgUpdateRateLimit
  unfoldable pub validate_basic : {S : Type 0} → MsgRateLimit → Exec Error S (Unit {0})
  unfolding validate_path
  validate_basic msg = do
    validate_path msg.authority msg.channel_id
    raise_if (out_of_percent msg.max_percent_send) invalid_request
    raise_if (out_of_percent msg.max_percent_recv) invalid_request
    raise_if (is_zero msg.max_percent_recv && is_zero msg.max_percent_send) invalid_request
    raise_if (leb_ℤ msg.min_rate_limit_amount (pos 0)) invalid_request
    raise_if (msg.duration_hours == 0) invalid_request

  module _ ⦃kv : Kv⦄ ⦃ctx : Context⦄ where
    -- AddTransferRateLimit
    unfoldable pub add_transfer_rate_limit : MsgRateLimit → Action (Unit {0})
    add_transfer_rate_limit msg = do
      raise_if (not (eq_bytes ctx.authority msg.authority)) invalid_signer
      validate_basic msg
      add_rate_limit msg

    -- UpdateTransferRateLimit
    unfoldable pub update_transfer_rate_limit : MsgRateLimit → Action (Unit {0})
    update_transfer_rate_limit msg = do
      raise_if (not (eq_bytes ctx.authority msg.authority)) invalid_signer
      validate_basic msg
      update_rate_limit msg

module _ ⦃kv : Kv⦄ ⦃ctx : Context⦄ where
  -- RemoveTransferRateLimit: the sender, then the fields of the request.
  unfoldable pub remove_transfer_rate_limit : Bytes → Bytes → Bytes → Action (Unit {0})
  remove_transfer_rate_limit sender denom channel_id = do
    raise_if (not (eq_bytes ctx.authority sender)) invalid_signer
    remove_rate_limit denom channel_id

  -- ResetTransferRateLimit
  unfoldable pub reset_transfer_rate_limit : Bytes → Bytes → Bytes → Action (Unit {0})
  reset_transfer_rate_limit sender denom channel_id = do
    raise_if (not (eq_bytes ctx.authority sender)) invalid_signer
    reset_rate_limit denom channel_id
