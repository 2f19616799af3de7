-- ===== src/Lib.antt =====
-- The core of the ACBU backend: what its services decide and write, taken from src/services, src/utils
-- and src/config of the repository. A service is a function over the rows that it reads and writes;
-- what it gets from outside (Horizon, Redis, the clock, random numbers, bcrypt, environment variables)
-- is an argument. Ids, addresses, hashes and texts that are only compared are numbers, times are in
-- milliseconds, and amounts are natural numbers of a common unit. The texts of transfers and the fees of
-- Stellar go through JavaScript's numbers, whose rounding Prelude.Doubles has; the sums by currency of
-- the treasury are over any numbers with an addition. Elsewhere, where the source divides, in Decimal
-- or floating-point numbers, the quotient is kept as an exact fraction.
--
-- The parts, and how they interact:
-- - TransactionStatus: src/utils/transactionStateMachine.ts, the statuses of a payment.
-- - CircuitBreaker: src/utils/circuitBreaker.ts, one breaker as a record of its fields. Invariant is
--   what holds between calls, Traces what sequences of calls do.
-- - Wallet: src/services/wallet/walletStateService.ts, the versions of the wallets and the cache of
--   balances, in one store. Types has the rows; Versions, Races, Balances and Coherence the theorems.
-- - Ledger: src/services/ledger/ledgerService.ts. The loop runs on fuel, the number of entries: each
--   round takes one entry at least, as the batch size is positive.
-- - Idempotency, JobLock, DenyList: src/services/idempotency/idempotencyStore.ts, src/utils/jobLock.ts
--   and src/utils/jtiDenyList.ts, three shared stores, each over sequences of calls by many instances.
-- - Basket and Reserve: src/config/basket.ts, src/services/basket and
--   src/services/reserve/ReserveTracker.ts. Fees.FeePolicy (src/services/feePolicy) reads the reserve
--   status; Fees.FeeManager (src/services/stellar/feeManager.ts) prices Stellar payments.
-- - Limits: src/services/limits/limitsService.ts, over the rows of the transactions. Config is
--   src/config/limits.ts with its cache, and Pauses the pauses by the reserves of Reserve.
-- - Rebalancing: src/services/reserve/RebalancingEngine.ts, over the statuses of Reserve.
-- - Recovery: src/services/recovery. RateLimit counts attempts, Devices keeps the trusted devices,
--   Unlock is unlockApp, the first step, and Otp is verifyRecoveryOtp, the second. Both steps use the
--   first two and work on the store of Otp.Types, and Otp is told which of its dependencies fail in a
--   call; what was written before an error stays written.
-- - Salary: src/services/salary/salaryService.ts. createTransfer is a parameter over a world of its
--   own: what the transfers of a chunk, which run at the same time, come to is one result for each. The
--   loop over the chunks runs on fuel, the number of items; a chunk takes one at least. Logs has the
--   calls that a batch makes, Settlement what they come to.
-- - Transfer: src/services/transfer/transferService.ts, createTransfer stage by stage, each stage a
--   function of what the one before returned. It claims the version and reads the balance in the store
--   of Wallet, finds the recipient with Recipient (src/services/recipient/recipientResolver.ts), and
--   works on one world of wallet rows, transactions and payments. Rows has the tests and the queries,
--   Amounts the texts of amounts; Guards, Outcomes, Keys and Retries the theorems. Submitting is the
--   loop of submissions; it runs on fuel, the three attempts that the source allows.
-- - Treasury: src/services/treasury/TreasuryService.ts. Aggregates is about the sums by currency,
--   Reconciliation is getEnterpriseTreasury, over the reserves of Reserve, and Totals is about it.
-- - Auth: src/services/auth/authService.ts. Signin is signin, SecondFactor is verify2fa, Refresh the
--   refresh tokens, Privileged the keys of administrators, and Guard is src/utils/authBruteGuard.ts
--   over the counters of src/utils/cache.ts; Factors, Lockout and Unguarded have the theorems on
--   sequences of sign-ins.
-- - KycReward, SyntheticBasket, Retry, Pagination: src/services/kyc/kycValidatorRewardService.ts,
--   src/services/oracle/syntheticBasket.ts, src/utils/retry.ts and src/utils/pagination.ts.
-- - Ids: src/utils/idGenerator.ts. Order is about the order of identifiers, Waiting about the wait for
--   the clock. A wait reads a list of clock readings.
-- - Prelude has the shared helpers, and Witnesses the theorems at concrete inputs.
--
-- Not modelled: logging and metrics, the HTTP controllers and routes, the clients of payment providers
-- and of Stellar, encryption, the background jobs, and the services for bills, fiat,
-- investment and the collection of oracle rates. Of transferService.ts, whose createTransfer is
-- declared twice, the second declaration is modelled, which the parameters of its callers fit. The
-- writes of salary batches to their own row succeed, and requests arrive at a database one after the
-- other, in any order.
pub mod Prelude
pub mod TransactionStatus
pub mod CircuitBreaker
pub mod Wallet
pub mod Ledger
pub mod Idempotency
pub mod JobLock
pub mod Basket
pub mod Reserve
pub mod Fees
pub mod Recovery
pub mod DenyList
pub mod Pagination
pub mod Retry
pub mod KycReward
pub mod SyntheticBasket
pub mod Salary
pub mod Limits
pub mod Recipient
pub mod Transfer
pub mod Treasury
pub mod Auth
pub mod Rebalancing
pub mod Ids
mod Witnesses
