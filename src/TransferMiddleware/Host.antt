-- ===== src/TransferMiddleware/Host.antt =====
-- What the relay of x/transfermiddleware calls (types/excepted_keepers.go): the bank, the transfer
-- keeper of ibc-go and the channel below. None of it is in this repository, so it is a record of
-- parameters; Ledger has the laws of the bank.
use composable_centauri.Base.{ℕ, Bool, List, if◌then◌else◌, ◌&&◌, not, ◌≡◌, true, arith}
use composable_centauri.Base.Int.{ℤ, pos, ltb_ℤ}
use composable_centauri.Base.Bytes.{Bytes}
use composable_centauri.Base.Exec.{Result, ok, err, Exec}
use composable_centauri.Sdk.{DenomTrace}
use composable_centauri.Fees.Config.{Coin}

pub data Failure : Type 0 where
  invalid_address invalid_amount bad_packet_data bad_acknowledgement bad_msg : Failure
  -- An error of the bank, of ibc-go or of the application below.
  from_below : Failure
  panicked : Failure

-- clienttypes.Height
pub record Height : Type 0 where
  pub revision_number : ℕ
  pub revision_height : ℕ

-- transfertypes.MsgTransfer
pub record MsgTransfer : Type 0 where
  pub source_port : Bytes
  pub source_channel : Bytes
  pub token : Coin
  pub sender : Bytes
  pub receiver : Bytes
  pub timeout_height : Height
  pub timeout_timestamp : ℕ
  pub memo : Bytes

pub record Host : Type 1 where
  pub World : Type 0
  -- The bank: payer, payee and coins; a module is given by its name.
  pub send_coins : Bytes → Bytes → List Coin → Exec Failure World (Unit {0})
  pub mint_coins : Bytes → List Coin → Exec Failure World (Unit {0})
  pub burn_coins : Bytes → List Coin → Exec Failure World (Unit {0})
  pub send_coins_from_module_to_account : Bytes → Bytes → List Coin → Exec Failure World (Unit {0})
  pub send_coins_from_account_to_module : Bytes → Bytes → List Coin → Exec Failure World (Unit {0})
  -- GetBalance, of an address and a denom, and GetSupply.
  pub get_balance : Bytes → Bytes → World → ℤ
  pub get_supply : Bytes → World → ℤ
  pub get_module_address : Bytes → Bytes
  -- sdk.ValidateDenom, true where it returns no error
  pub is_denom : Bytes → Bool
  -- transfertypes.PortID, transfertypes.ModuleName and GetEscrowAddress
  pub port_id : Bytes
  pub transfer_module : Bytes
  pub get_escrow_address : Bytes → Bytes → Bytes
  pub sender_chain_is_source : Bytes → Bytes → Bytes → Bool
  -- DenomTrace.Hash, and the traces that the transfer keeper stores
  pub trace_hash : DenomTrace → Bytes
  pub has_denom_trace : Bytes → World → Bool
  pub set_denom_trace : DenomTrace → World → World
  -- MsgTransfer.ValidateBasic, true where it returns no error, and Transfer: a sequence number
  pub validate_basic : MsgTransfer → Bool
  pub transfer : MsgTransfer → Exec Failure World ℕ
  -- ICS4Wrapper.SendPacket: port, channel, timeouts and data
  pub send_packet : Bytes → Bytes → Height → ℕ → Bytes → Exec Failure World ℕ

module _ ⦃host : Host⦄ where
  -- sdk.NewCoin, which panics at a bad denom and at a negative amount.
  unfoldable pub new_coin : Bytes → ℤ → Result Failure Coin
  new_coin denom amount =
      if host.is_denom denom && not (ltb_ℤ amount (pos 0))
      then ok (record { denom = denom; amount = amount })
      else err panicked

  pub new_coin-ok :
      (denom : Bytes) (amount : ℤ) (coin : Coin)
      → new_coin denom amount ≡ ok coin
      → coin ≡ record { denom = denom; amount = amount }
  unfolding new_coin
  new_coin-ok denom amount coin e = ground arith

  pub new_coin-is_denom :
      (denom : Bytes) (amount : ℤ) (coin : Coin)
      → new_coin denom amount ≡ ok coin
      → host.is_denom denom ≡ true
  unfolding new_coin
  new_coin-is_denom denom amount coin e = ground arith
