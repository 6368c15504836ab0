-- ===== src/Lib.antt =====
-- A verification library for the Go client of the Polymarket APIs.
--
-- The program's parts that are modelled, and where:
--
-- - clob/ws/client.go, the market subscriptions. `Ws.Market.State` is `marketSubscriptionState` with
--   one function for each method; `Ws.Client` has `subscribeMarketAssets`,
--   `unsubscribeMarketAssets` and `replayMarketSubscription` with the frames that they write, and
--   `Ws.Strings` has `canonicalStrings` and `unionSortedStrings`. `Ws.Remote` describes the far end
--   of the connection by the frames, and `Ws.Remote.Session` the life of a client as a step
--   relation: calls, lost connections, reconnections.
-- - clob/ws/client.go, the user subscriptions: `Ws.User`.
-- - `Ws.Calls` has the methods that a user of that client calls.
-- - clob/amount.go: `Clob.Amount`, over the fractions of `Clob.Rat`.
-- - clob/validate.go: `Clob.Validate`, over the decimal numbers of `Clob.Number`.
-- - clob/sign_order.go and clob/deposit_wallet_signing.go: `Clob.Order`. A step of the preparation
--   changes the order and may end the call with an error; the steps follow one another by `>>>`.
-- - clob/order_builder.go: `Clob.Order.Builder`, which computes the amounts with `Clob.Amount`,
--   checks with `Clob.Validate`, and signs with `Clob.Order`.
-- - clob/ws/client.go, the connection: `Ws.Connection`, where `connect`, `Close`,
--   `scheduleReconnect` and the goroutines are steps that follow one another in any order.
-- - clob/ws/rtds/client.go and types.go: `Ws.Rtds`, the subscriptions to topics.
-- - clob/combo_protocol.go: `Combo.Legs`.
-- - relayer/safe.go, relayer/proxy.go and relayer/types.go: `Relayer` has the requests and the checks
--   that both kinds of wallets share, `Relayer.Safe` the requests of a Safe wallet and
--   `Relayer.Proxy` those of a proxy wallet, from their transactions to the signature.
--   `Relayer.MultiSend` has the loop of the MultiSend contract over the bytes of a batch.
-- - clob/ctf.go, clob/ctf_types.go and clob/contracts.go: `Ctf`, the transactions of the conditional
--   tokens. `Ctf.Batch` is clob/deposit_wallet_batch.go and clob/deposit_wallet_ctf.go, the signed
--   batches of a deposit wallet, and `Ctf.Relay` is clob/relayer_ctf_ops.go, which submits
--   a transaction by way of the relayer, with clob/deposit_wallet_ctf_ops.go in
--   `Ctf.Relay.DepositWallet`; `Ctf.Sent` has the transactions that an account sends to a node itself.
-- - clob/combo_positions.go, clob/combo_balances.go and clob/combo_relayer_ops.go: `Ctf.Combo` has the
--   derived ids, the transactions of combos and their amounts, and `Ctf.Combo.Calls` the operations,
--   in which a node may answer each transaction that an account sends in another way.
-- - combo/builder.go and combo/types.go: `Combo.Decimal` has the numbers of a quote, and
--   `Combo.Quote` its terms, its order and its signature.
-- - combo/ws/client.go and types.go: the options of a client in `Combo.Options`, the table of
--   pending requests in `Combo.Pending`, the messages and their checks in `Combo.Messages`, their
--   handling and the shutdown in `Combo.Session`, and in `Combo.Calls` the calls, and the steps in
--   which callers and read loop take turns.
--
-- Strings are lists of code points (`Base.Text`): they hold valid UTF-8, whose byte order is the
-- order of the code points. Go maps are association lists (`Base.Map`), and where the code ranges
-- over a map the result does not depend on the order, but for the order in which a shutdown answers
-- the requests that wait. Numbers are natural numbers or, in
-- `Base.Int`, integers: the counters of subscriptions are not bounded here, and `big.Int` and
-- `big.Rat` are not bounded in the source. The loops recur on a list; only the printing of a
-- number takes fuel, one more than the number, which is enough since each digit divides it by ten.
--
-- Parameters of the model: `write`, which stands for `wsjson.Write` of the WebSocket library and
-- gives the error of each frame, if any; `set_string`, which stands for `big.Rat.SetString` and
-- gives the fraction that a text denotes, if any; `Clob.Order.Env`, which has the readings of numbers,
-- the addresses and signatures of go-ethereum, the clock and the random numbers; and the HTTP
-- requests of the order builder. `Eth.Ethereum` has the
-- functions of go-ethereum that the requests of the relayer use, and `Eth.IsEthereum` what the
-- theorems take of them; `Eth.Sample` is an instance of both. In `Ws.Rtds`, `encode` and `encode_filters` stand for encoding/json,
-- and `to_lower` and `to_upper` for the functions of strings; `Combo.Quote.QuoteEnv` has the
-- addresses and signatures of go-ethereum, the clock and the random numbers of a quote. Whether a
-- dial succeeds, a timer fires or a connection fails is a choice of the step. Each method of the
-- subscriptions and each shutdown is one step; the steps of `Ws.Connection` lie between two accesses
-- of the shared atomics.
--
-- Not modelled: HTTP requests, JSON field names, cryptography, the ids of conditions and
-- positions of the conditional tokens, the wait for a receipt, the tables of symbols, and when the read loop, the heartbeat and the watchdog of a
-- connection find that it failed. Of an order that fails to be signed, the
-- model keeps the fields that were filled before the error.
pub mod Base
pub mod Ctf
pub mod Relayer
pub mod Eth
pub mod Ws
pub mod Clob
pub mod Combo
