-- ===== src/Lib.antt =====
-- A model of the contract pinger: a service that starts round trips of a signature network on
-- request, and a script that tops up the addresses they spend from.
--
-- The parts, and the files that model them:
-- RateLimiter (src/utils/rateLimiter.ts): the sliding-window limiter of arrivals. The clock, a
-- default argument there, is an argument. Child modules: Window (against a log of every allowed
-- request), Retry.
-- WorkerPool (src/utils/workerPool.ts): the pool of derived addresses. A worker that is handed
-- out is named by its path, a waiter by a ticket, and a promise is settled by an entry of a
-- list. Child modules: Acquire, Waiters, Events (histories of calls), Leases, Paths (the names
-- that buildPaths gives), Fairness.
-- JobStore (src/jobs/store.ts): the records of the jobs, with the clock and the random id as
-- arguments; the map is the list of its records in the order of insertion. Child modules:
-- Retention, Updates, Bounded, Capacity, Patched (an update, field by field), Moves (what calls
-- for one job do to the others).
-- BidirectionalTx (src/utils/bidirectionalTx.ts): the transactions.
-- Service (src/handlers/signBidirectional.ts): the service of one environment. A run of a job
-- stops at each await; its Phase names the place, and the reply with which it goes on is an
-- argument. Child modules: Steps (run, from one await to the next), World (a service with all
-- its runs, and histories of events), Balance, Leasing, Resuming, Account (the account of the
-- leases over each piece of run), Exclusive, Withheld, Shutdown, Stages (what a job's record
-- says at each phase of its run), Proceeding, Settling, Finishing and Admission (the same over
-- the pieces of a run and over histories), Progress, Due and Ending (the answers that a run
-- asks for and takes), Addresses (src/utils/derivation.ts and the reads of the workers'
-- endpoint by themselves, with children Placing, Loops and Observed). The workers' endpoint of
-- src/index.ts takes part in a history by the addresses, balances and counts that it sees.
-- Funding (scripts/fund-workers.ts): the sweep: the plan, its caps and the comparison with a
-- running service. Child modules: Plan, CrossCheck, Sweep (main, from its arguments to the
-- decision; Sweep/Stages, Sweep/Checked, Sweep/Flags and Sweep/Twice), Sending (the transfers
-- and the exit code; Sending/Exits).
-- Http (src/index.ts): the secret, the resolution of a service, and the requests for a round
-- trip and for a job. Child modules: Laws, Lookup, Ping (the requests for a ping and for a
-- balance; their laws in Ping/Laws), Status (the workers' and the figures' endpoints).
-- Stats (src/jobs/stats.ts): the figures over the jobs of a store. Child modules: Order, Ranks,
-- Build (buildStats; its sums in Build/Sums).
-- Handlers (src/handlers/index.ts, ethereum.ts, solana.ts, and src/utils/initEvm.ts,
-- initSolana.ts, evmTransactions.ts): the registry of chains and the pings. Child modules:
-- Laws, Shared (the clients of Solana and the contexts that jobs share; Shared/Once).
-- LoadTest (scripts/loadtest.ts): the load driver, over the answers of a server. Child modules:
-- Rounds (a round against each job by itself), Polling (how the polling ends), Submission (the
-- whole run).
-- Env (src/utils/env.ts): the empty values, the respond budget, the rotation of the keys. Child
-- module: Rotation.
-- Common: shared types, tests, list lemmas, a stable sort, signed differences.
--
-- Numbers. Counts, instants, balances and fees are natural numbers without a bound:
-- JavaScript's are exact up to 2^53, and those in wei are big integers there. Differences of
-- instants are signed. No function runs on fuel: each loop recurs on a list.
--
-- Not modelled: the configuration's schema (src/utils/env.ts), which is zod's; the instruction
-- of the chain-signatures program (src/utils/signBidirectionalIx.ts) and the construction of
-- the clients, which hand data to third-party libraries; and the texts that are logged. What
-- such a library answers (a node's balance, an encoded transaction, a recovered signer) is an
-- argument of the definition that reads it.
pub mod Common
pub mod RateLimiter
pub mod WorkerPool
pub mod BidirectionalTx
pub mod JobStore
pub mod Service
pub mod Funding
pub mod Http
pub mod Stats
pub mod Env
pub mod Handlers
pub mod LoadTest
