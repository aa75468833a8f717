-- ===== src/Sdk.antt =====
-- What the modules of x/ take from the Cosmos SDK, ibc-go and their codecs, none of which is in this
-- repository: packets, and the functions of those libraries, as a record of parameters.
use composable_centauri.Base.{ℕ, Bool, Option}
use composable_centauri.Base.Int.{ℤ}
use composable_centauri.Base.Bytes.{Bytes}

-- channeltypes.Packet, the fields that the modules read.
pub record Packet : Type 0 where
  pub sequence : ℕ
  pub source_port : Bytes
  pub source_channel : Bytes
  pub dest_port : Bytes
  pub dest_channel : Bytes
  pub payload : Bytes

-- transfertypes.FungibleTokenPacketData
pub record FungibleTokenPacketData : Type 0 where
  pub denom : Bytes
  pub amount : Bytes
  pub sender : Bytes
  pub receiver : Bytes
  pub memo : Bytes

-- transfertypes.DenomTrace
pub record DenomTrace : Type 0 where
  pub path : Bytes
  pub base_denom : Bytes

-- The response of a channeltypes.Acknowledgement: a result, an error, or nothing at all.
pub data Acknowledgement : Type 0 where
  ack_result : Bytes → Acknowledgement
  ack_error : Bytes → Acknowledgement
  ack_nothing : Acknowledgement

pub record Sdk : Type 0 where
  -- sdk.AccAddressFromBech32
  pub acc_address_from_bech32 : Bytes → Option Bytes
  -- host.ChannelIdentifierValidator, true where it returns no error
  pub is_channel_identifier : Bytes → Bool
  -- json.Unmarshal into a FungibleTokenPacketData
  pub unmarshal_packet_data : Bytes → Option FungibleTokenPacketData
  -- transfertypes.ModuleCdc.UnmarshalJSON into an Acknowledgement
  pub unmarshal_acknowledgement : Bytes → Option Acknowledgement
  -- sdk.NewIntFromString
  pub new_int_from_string : Bytes → Option ℤ
  -- transfertypes.ParseDenomTrace and DenomTrace.IBCDenom
  pub parse_denom_trace : Bytes → DenomTrace
  pub ibc_denom : DenomTrace → Bytes
  -- transfertypes.ReceiverChainIsSource and GetDenomPrefix
  pub receiver_chain_is_source : Bytes → Bytes → Bytes → Bool
  pub get_denom_prefix : Bytes → Bytes → Bytes
