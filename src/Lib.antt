-- ===== src/Lib.antt =====
-- Composable Centauri, a Cosmos SDK chain: a model of its own modules in x/ and custom/, which
-- stand around the token transfers of IBC, and of what they keep in their stores.
--
-- Parts, and how they interact:
-- * RateLimit (x/ratelimit): limits on the net flow of a denom on a channel within a quota period.
--   State holds the records of types/ratelimit.pb.go and epoch.pb.go and the keeper's store; Quota
--   is types/quota.go and flow.go; Keys the keys of types/keys.go; Keeper is keeper/rate_limit.go;
--   Packet is keeper/packet.go; Epoch is keeper/epoch.go and abci.go with types/epoch.go; Msgs is
--   types/msg.go and keeper/msg_server.go; Genesis is keeper/genesis.go; Query is
--   keeper/grpc_query.go; Middleware is ibc_middleware.go, which calls Packet and then the
--   application below, which keeps a world of its own. Invariant and the children of the other modules hold the proofs.
-- * TransferMiddleware (x/transfermiddleware): the registry of the tokens of the parachain bridge and
--   the exchange of a bridged token for its native one. Keeper is keeper/keeper.go, msg_server.go
--   and abci.go; Relay is keeper/relay.go and the refund of keeper/ics4wrapper.go, Ics4Wrapper the
--   rest of that file; Middleware is ibc_middleware.go, which also pays back the fees that Fees
--   keeps; Genesis, Query and the messages' checks are the files of these names in keeper/ and
--   types/; Relayers is app/ante/ibc_ante.go, which reads the allowed relayers. Ledger is the
--   abstract view of the bank that Exchange is stated over: who holds what, and the supply.
--   RateLimit reads the registry to find the denom that a limit is on.
-- * Fees (x/ibctransfermiddleware and custom/ibc-transfer): the fee schedule (Config) and Transfer,
--   which charges an outgoing transfer before it passes it on (Transfer).
-- * TxBoundary (x/tx-boundary): how many delegations an account may send; Keeper is
--   keeper/keeper.go, Ante is ante/decorate.go.
-- * Staking (x/stakingmiddleware and custom/staking): Params has the parameters of an epoch, Keeper
--   what happens at the end of a block and to a request to redelegate or undelegate, and Queues the
--   calls that the end of a block makes.
-- * Supply (custom/bank/keeper/keeper.go): the supply less what the bridge holds in escrow.
-- * Mint (x/mint): Minter is types/minter.go, over sdk.Dec as a parameter; Params is types/params.go
--   and the checks of the messages; Keeper is keeper/keeper.go, msg_server.go, genesis.go and abci.go.
-- * Migration (bech32-migration): the change of the address prefix in what other modules have stored;
--   Addresses and Stores are utils/utils.go, Allowed the stores whose keys are addresses, and Modules,
--   Gov and Wasm those whose values hold addresses. Codec has the laws of bech32 that the proofs
--   assume, as a record of hypotheses. In Gov what cannot be decoded is a value of its own.
-- * Base, Kv and Sdk are shared. Base has integers, strings, decimal numbers, 64-bit words and
--   the monad of calls that change a state and fail (Exec); Kv is the interface of a store with
--   its laws, and Kv/Assoc a store that meets them; Sdk is the interface of the libraries' codecs.
--
-- How the code is written here. A function of a keeper is a definition of its name in snake case. A
-- call that can fail returns a result beside the state, which keeps what was written before the
-- error, as a Go function does before its caller drops the cached store; a panic is an error. Code
-- of the Cosmos SDK and of ibc-go (stores, codecs, addresses, denom traces, the bank, staking, the
-- transfer module) is a parameter: the records Kv, Sdk, Host (of TransferMiddleware), Chain (of
-- Fees, Staking and Mint), Decimals and Bech32. A store holds values and not their bytes,
-- and each key prefix is a store of its own; an iteration runs over the entries at its start. Strings
-- are lists of bytes. math.Int is an integer without a bound (its panic beyond 256 bits is not
-- modelled); int64 and uint64 wrap where the code computes with them, in epoch numbers, counts and
-- block heights. Times are nanoseconds. No loop needs fuel but the printing of a number, which has
-- twenty digits at most, enough for 64 bits.
--
-- Not modelled: x/ibc-hooks, a copy of Osmosis' module; of bech32-migration the interchain
-- accounts and the packets in flight, and but for governance the panics at stored bytes that do
-- not decode; app/upgrades, which calls the migrations one after another, and the wiring of the
-- application (app); the test harness app/ibctesting, a copy of ibc-go's; command-line clients and
-- generated code; the channel handshakes, which are passed through, and the pages of queries;
-- logging, telemetry and the events of the handlers, except the two that the rate limits emit.
pub mod Base
pub mod Kv
pub mod Sdk
pub mod TransferMiddleware
pub mod RateLimit
pub mod TxBoundary
pub mod Fees
pub mod Mint
pub mod Staking
pub mod Supply
pub mod Migration
