-- ===== src/Lib.antt =====
-- A model of the trading library: the exchange core and the infrastructure it stands on, with the
-- theorems that make it correct.
--
-- The parts and how they interact. core-exchange/orderbook-matching-engine takes orders, matches
-- them against two books and emits events; it keeps a DepthBook and a MarketDataBroadcaster of
-- infrastructure/market-data-push-system and a SpscRingQueue of infrastructure/lock-free-structures.
-- core-exchange/account-clearing-system freezes, releases and settles balances, writes a journal and
-- keeps an OutboxStore of infrastructure/distributed-consistency, whose TccWallet and
-- SagaCoordinator stand alone. core-exchange/unified-access-gateway authenticates, limits and routes
-- requests into a ring queue; core-exchange/pre-trade-risk-engine decides whether an order may reach
-- the book. integration/exchange-pipeline owns one of each and takes a request through the gateway,
-- the parser, the risk engine, a hold in clearing, the book, the settlement of the trades and the
-- release of the holds of closed orders, telling the risk engine of balances and resting orders.
-- tooling/observability-stack stands beside it: metrics and spans go through a ring queue to a flush
-- that sums them up, keeps a bounded history and sends the alerts of its rules.
--
-- The files.
--   Prelude: shared types and lemmas. Prelude/Int: integers; Prelude/Double: doubles; Prelude/Dict:
--     std::unordered_map; Prelude/OrderedMap: std::map.
--     Prelude/Sorting: std::sort.
--   Ring: infrastructure/lock-free-structures/spsc_ring_queue.hpp; Drained is about a queue that is
--     emptied after each push, Sized about how many it holds.
--   Memory: infrastructure/memory-pool/fixed_block_pool.hpp, in Pool. Counting and Accounting are about
--     where a block is, Uses about threads that take blocks and give them back.
--   MarketData: depth_book.hpp, broadcaster.hpp and market_types.hpp of
--     infrastructure/market-data-push-system; Delivery is about what a subscriber gets. Candles is
--     candle_aggregator.hpp; CandleLaws, Keys and CandleSums are about it.
--   Consistency: outbox.hpp, tcc_wallet.hpp and saga.hpp of infrastructure/distributed-consistency, in
--     Outbox, Wallet and Saga; Batches, WalletLaws, WalletSums, WalletRuns, WalletEnds and SagaLaws are about
--     them. A method
--     is a function from the old state to the new one and its answer.
--   Matching: core-exchange/orderbook-matching-engine. Types, Events, Book, Match and Engine hold
--     the data and the operations, under the names of the source; match_against stands for
--     match_against_asks and match_against_bids, which differ in the side only. Offers is the
--     specification: the makers of a side as a flat list, and what an order takes from it. Wellformed
--     is the invariant of the books; Removal, Step, Take, TakeLaws, Round and Refine relate the loop to the
--     specification; Rest, Killing, Submit, Finalize and Outcome carry it through submit; Trades and Policies
--     are the promises to the caller; Reachable is about the engines that a run of orders reaches;
--     DepthOverwrite is a defect of the depth.
--   Clearing: core-exchange/account-clearing-system. Types, Amounts, Holds and Settle hold the data
--     and the operations; Journal and Explained, SettlementJournal, Coverage and Outcome, and
--     Release are about the journal, the settlement and the holds. Contract
--     says what a settlement promises, Spending and Settled that it does.
--     Messages has the names of the statuses; Refusals is about freezes that are refused.
--   Risk: core-exchange/pre-trade-risk-engine. Types, Markets, Rules, Audit and Evaluate hold the data
--     and the operations; AuditLaws, Rulebook and Admission are about every evaluation, Accounts is a defect of
--     the keys.
--   Gateway: core-exchange/unified-access-gateway. Types, Access, Sessions and Route hold the data and
--     the operations; Longest is about the routes, Limits about the rate limits, SessionLaws about the
--     sessions, Passing and Forwarding about the way of a request.
--   Pipeline: integration/exchange-pipeline. Types, Payload, Orders, Sync, Stages, Settling and Submit
--     hold the data and the operations; submit is submit_request, cut into one function for what
--     follows each stage. PayloadLaws and Printing are about the parser; Views and StageViews say what
--     the stages leave as it is, Running, Runs and Start that requests are answered; Late and Untouched
--     are about the requests that are rejected before the book.
--   Observability: tooling/observability-stack. Types and Stack hold the data and the operations;
--     Streaks is about the alerts of a rule, History and Calls are about the flush and the history.
--
-- Decisions.
--   A double is the integer that counts its units of 2^-1074, so that every finite double, every
--   literal and every comparison is exact. Products and quotients are
--   parameters (Fpu), and so are the sums and differences of the wallet (Sums) and what a stream prints
--   (Ostream). All other sums and differences are taken without rounding; the results say what is added
--   to what and in which order, and none needs that a sum is exact. Infinities and NaN
--   are not modelled. Unsigned counters wrap at 2^64.
--   A pointer to a resting order is its id, and the dictionary of live orders is the store; a pointer
--   that dangles and the front of an empty queue give none. The matching loop runs on fuel: one
--   round for each order of the side, one for a partial fill and one to leave. Running out gives none
--   too, so that a theorem that says the result is some shows both.
--   A method that holds a mutex throughout is one step. The ring queue has one caller at a time.
--   The pools of the components above are stores of objects; what one thread does to a pool of blocks is a
--   step, since the rest is its own cache.
--   std::sort (Sort), std::strtod and the printing are parameters, as is the arithmetic of a Platform;
--   an std::unordered_map is walked in the order of its list. Times are integers without a bound, but for
--   the sums that are taken as a hold is released, which overflow at 2^63; the differences of times and
--   windows are of numbers above zero, and fit. A batch is not reserved, so that a size that
--   std::vector cannot hold is not modelled. The
--   loop of parse_key_values has a round for each character of the payload and one more, the flush of
--   an audit queue and of the observability stack a round for each slot and one more.
--
-- Not modelled: the construction of objects in pooled blocks, the caches that a thread leaves as it
-- ends, memory that runs out, the destructors, the queue of several producers, the performance toolkit,
-- tests and benchmarks, and the getters of the pipeline that pass on a call of one component.
pub mod Prelude
pub mod Ring
pub mod MarketData
pub mod Consistency
pub mod Matching
pub mod Clearing
pub mod Risk
pub mod Gateway
pub mod Pipeline
pub mod Observability
pub mod Memory
