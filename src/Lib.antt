-- ===== src/Lib.antt =====
-- A bot that trades binary markets (Up or Down) of Polymarket. The engine asks the exchange for markets,
-- stores the new ones and starts a worker for each; a worker polls the prices, decides by the strategy,
-- places an order and books its fill; when its market is over the worker marks it resolved, and the
-- engine's redeem worker redeems it on chain fifteen minutes later.
--
-- Which file models which part (paths from the root of the repository):
--   Model          internal/model: markets, orders, prices. A time is its number of nanoseconds.
--   Config         internal/config/config.go: Load, validate, IsAllowedUnderlying, GetDBConnURL.
--   Decimal        the operations of github.com/shopspring/decimal that the program calls, as an interface
--                  with the laws that its documentation gives; Decimal/Whole fills both with whole numbers,
--                  for the examples.
--   Strategy       internal/engine/strategy.go, one function per function (simulateNewRisk is
--                  simulate_new_risk, and so on).
--   Worker         internal/engine/worker.go: marketWorker, newMarketWorker and processNewMarketState, which
--                  is evaluate, decide and size_order in a row. Worker/Tick: processTick, the start of Run.
--                  Worker/Loop: tradingLoop over the cases that its select picks; Worker/Timed and
--                  Worker/Paced are about the times of its decisions.
--   Engine         internal/engine/engine.go: processMarkets, filterMarkets, Stop and the redeem round.
--   System         engine.go and worker.go over the tables: the rounds of the engine, the goroutine of each
--                  market (absent, starting, trading, ended), the engine's loop and the redeem worker,
--                  with their returns after a cancel, as steps that interleave; System/Lifecycle has the invariant and the life of a market, System/Steps
--                  that each step keeps to both, System/Progress and System/Lost where it can lead,
--                  System/Shutdown and System/Stopped the end of Engine.Stop, System/Restart what the
--                  next process makes of the tables.
--   Exchange       internal/exchange/polymarket/client.go and auth.go: credentials, headers, GetPrices;
--                  Exchange/Markets: GetMarkets and GetOrder; Exchange/Signing: the typed data of EIP-712
--                  and its signature; Exchange/Requests: the headers as they are set on a request;
--                  Exchange/Calls: the three calls that only read, with their requests; Exchange/Orders:
--                  PlaceOrder; Exchange/Payload: the body that it posts, and the salt.
--   Chain          internal/exchange/polymarket/blockchain.go and redeem.go: the retries of a transaction,
--                  the receipt and the payout; Chain/Safe: the signed call of a redemption, with the
--                  comparison that its owners are sorted by.
--   Notify         internal/notify/telegram: telegram.go is Notify/Telegram, writer.go
--                  Notify/Telegram/Writer and, for the goroutine that sends, Notify/Telegram/Sending.
--   Balance        internal/balance/balance.go.
--   Startup        cmd/bot/main.go with the constructors of the storage and of the client.
--   Storage        internal/storage/storage.go; Storage/Postgres: internal/storage/postgres over the tables
--                  of its migrations/00001_init.sql.
--   Prelude        tests, lists, integers and results that the others share.
--
-- Numbers that the source keeps in decimal.Decimal or big.Int are exact; durations are integers of
-- nanoseconds. An error of Go is `fails` of Fallible, a panic is `panics` of Go. What the exchange, the
-- node, the clock and the database answer is an argument, so that each theorem holds for every answer.
--
-- Two loops have no bound of their own. The loop that makes an order smaller runs on fuel: as each pass
-- takes a half from the size, a number of passes that covers the distance to the minimal size is enough,
-- and the theorems say how many. The wait for a receipt runs over the polls that it is given.
--
-- The steps of System take the answers of the exchange and of the database anew each time, so that every
-- error of theirs, at every point, is a run; a tick that panics has no step, since it ends the process.
--
-- Not modelled: what is logged, the pauses and intervals of the tickers, the health check of the
-- database, which only logs, and the bounds of a duration, at which Sub, Since and Until of package time
-- stop (about 292 years). A transaction whose commit fails is taken to have written nothing.
pub mod Prelude
pub mod Decimal
pub mod Strategy
pub mod Model
pub mod Config
pub mod Worker
pub mod Engine
pub mod Exchange
pub mod Chain
pub mod Storage
pub mod System
pub mod Notify
pub mod Balance
pub mod Startup
