-- ===== src/Lib.antt =====
-- Verification of the moderation service (Go, package internal/audit).
--
-- A client's request is admitted (runtime.go), its policy gives the candidate channels, and a loop
-- (router.go, executeRoute) tries them one after another: it chooses a channel under the engine's
-- lock, reserves concurrency, quota and money, calls the provider, gives the reservations back and
-- settles the cost. The routing state of the channels is shared by all requests; the ledger of costs
-- is the database's.
--
-- Files, with the code that each models:
--   Prelude        shared names, tests on numbers, lists, results of fallible code, integers
--   Clock          times in nanoseconds, the clock of Asia/Shanghai, price periods (pricing.go)
--   Money          amounts as text: picoString, parseCNY (pricing.go), evaluationMoneyString
--                  (evaluation_runs.go); texts are lists of code points, amounts pico-CNY
--   Pricing        PriceRates, safeCost, reserve, calculate (pricing.go)
--   Usage          UnmarshalJSON (pricing.go), normalizeGrokUsage (provider.go)
--   Router/State   channelState, resetChannel, channelHealth (router.go), rpmUsed (channel_rpm.go)
--   Router/Tier    routeProgress, selectTier (route_failover.go)
--   Router/Acquire acquireRoute (router.go); the drawn number is a parameter
--   Router/Release the function that acquireRoute returns
--   Router/Ledger  any sequence of these operations, as a step relation
--   Execute        the loop of executeRoute; Execute/Answer is one call of a provider and
--                  Execute/Rounds a round and the loop
--   Billing        ReserveCost, SettleCost, reconcileCost (billing.go), the cleanup of store.go, over
--                  a list of the rows of audit_costs
--   Admission      requestAdmission, RuntimeConfig.Validate (runtime.go)
--   Keywords       blocksKeywords, ignoresKeywords, validateKeywordList, moderationResult and the
--                  verdict of runAudit (keyword_block.go, keyword_ignore.go, moderation.go, router.go)
--   Ingress        ingressGuard (ingress.go); the arithmetic of the float64 tokens, with its
--                  rounding, is an argument
--   Pacing         evaluationPacer, evaluationTimeout (evaluation_pacing.go)
--   Text           texts as code points (Go's strings)
--   Policy         PolicyConfig, PolicySettings, their Validate (model.go), provider addresses
--                  (provider.go), and executeRoute before its loop (Policy/Candidates)
--   CachedRoute    cachedRoute (cache_route.go); the lookups in the cache and the database are
--                  parameters
--   Moderate       client and moderate (server.go) with RouteSnapshot (channels.go): from the token to
--                  the audit, with the database as it is at each look
--   ModerationInput  the body and the input of a request (moderation_input.go); what the JSON, URL
--                  and base64 decoders read is a parameter
--   Registry       the tables of credentials, channels, policies and client keys, and the operations
--                  on them: store.go, channels.go, credentials.go, keys.go, key_lifecycle.go,
--                  policy_lifecycle.go; Registry/Commands has them as data, each with its
--                  transaction (Store.mutate). Names of credentials, masked keys and the details
--                  of the log of actions are left out; a secret is not encrypted in the model
--   ClientAddress  parseTrustedProxies, requestClientIP (trusted_proxy.go)
--   Evaluation     evaluationScores (evaluation_report.go), applyCosts (evaluation_costs.go)
--   Gate           keyedGate (keyed_gate.go), the entries as a store of objects
--   Examples       runs on small inputs
--
-- State is passed explicitly. A critical section under a lock, or a transaction that locks the row
-- of the client's key, is one operation; interleavings are sequences of steps. What the database,
-- the vault and the provider answer to a request is a parameter of each round of its loop (Round),
-- and what other requests do to the channels between two rounds is one of its fields.
--
-- Numbers: a count or an amount that the code keeps from being negative is a natural number; one
-- that it reads from outside is an integer (Prelude/Int). The zero time is 0. Errors keep their HTTP
-- status and their code; messages for users are left out.
--
-- Fuel: select_tier gets a round for each eligible entry and one more, since each round that goes on
-- gives up one level with an entry in it; execute gets a round for each candidate and one more,
-- since each round that goes on marks one more candidate as used. cached_route gets a round for
-- each candidate, since each takes one out. All are proved to be enough.
--
-- Not modelled: HTTP, SQL and JSON themselves, encryption, sessions, e-mail, analytics, the
-- rest of the evaluation runs, the keys and the rows of the result cache, the user
-- interface and the deployment.
pub mod Prelude
pub mod Money
pub mod Clock
pub mod Pricing
pub mod Usage
pub mod Router
pub mod Admission
pub mod Execute
pub mod Billing
pub mod Gate
pub mod Keywords
pub mod Pacing
pub mod Text
pub mod Policy
pub mod Registry
pub mod Evaluation
pub mod ClientAddress
pub mod CachedRoute
pub mod ModerationInput
pub mod Moderate
pub mod Ingress
mod Examples
