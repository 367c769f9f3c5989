-- ===== src/Lib.antt =====
-- gads-write-MCP lets people change Google Ads accounts through a language model. A draft tool
-- stores a plan and a preview; confirm_and_apply is the one tool that changes anything. This
-- library models the part of the server that decides what may happen: who may do what, what a
-- change may cost, what is written down, and in which order.
--
-- Base holds what the other modules share: the library's names, tests, lists and integers over the
-- native numbers, dictionaries as association lists, and results that are a value or an exception.
-- Python models what the program uses of its language: decimal.Decimal (28 digits, exact
-- comparison), values of any type, and text. What rests on the Unicode tables, on str of an
-- object, on the grammar of Decimal(text), on urlparse or on date.fromisoformat is a parameter,
-- the record Runtime.
--
-- Auth/Tiers is src/gads_write/auth/tiers.py with the role table of auth/google_ads_roles.py, and
-- Auth/Identity the caller. Tools/Registry is tools/registry.py. Safety/Plans is safety/plans.py:
-- the lock makes each method one step on the record PlanStore (draft, peek, consume,
-- purge_expired, open_count); Checks, Invariant and Trace are its laws. Safety/Units is
-- safety/units.py, Safety/Policy is safety/policy.py (judge_budget and judge_bid are the
-- evaluations on amounts already coerced), Safety/Audit is safety/audit.py (redact, and in
-- Audit/Log the files of lines), Safety/Spend is safety/spend.py, Safety/Accounts is
-- safety/accounts.py.
--
-- Safety/Guard is safety/guards.py. Its method check is the chain decide, by_identity, by_tier,
-- by_account, by_operation, by_validation, by_limits in the order of the source, followed by the
-- audit line; what the settings, the clock, the disk and the collaborators answer during one call
-- is the record Services. Guard/Order and Guard/Complete say when a call is let through,
-- Guard/Audited what is written.
--
-- Auth/Cache, Auth/Roles and Auth/Resolver are the cache of tiers and the resolvers of
-- auth/google_ads_roles.py and the overrides of auth/roles.py: what Google, the clock and the disk
-- answer is an argument, the cache and the store of overrides are the state, and Cache/History is
-- a cache against the history of its calls. Resolver/Laws says what the gate's lookup of a tier
-- rests on. Tools/Middleware is mcp_middleware.py, the menu and the early refusal in front of the
-- gate.
--
-- Safety/Validators is safety/validators.py, by the kind of input: Text, Reports, Ads, Campaigns.
-- A ValidationResult is the list of its problems, and Accepted has what passes. Tools/Operations
-- is the table OPERATIONS of tools/operations.py, whose rows hold the validators of
-- Operations/Validation and the re-checks of Tools/Rechecks (budgets), Rechecks/Campaigns and
-- Rechecks/Bids, each judged against the entity as it is now.
--
-- Tools/Confirm is tools/confirm.py with read_current of tools/operations.py. It acts on the plans
-- and the log, and gives way to other calls at every await: what those do is the function
-- meanwhile of the record World, which also holds the table of checks, the reader, the executor
-- and the person asked. Confirm/Steps holds its data. Confirm/Passed, Reread, Order and Steady say
-- what stands behind a confirmation that goes through, Confirm/Sent what follows for the request
-- that is sent, and Confirm/Keeps and Effects what a confirmation leaves as it was, and Tests has
-- an example of each result below.
--
-- Loops are structural recursion. The fuel is in the count of decimal digits, which gets one more
-- than the number itself, and in redact_items, which counts the 50 items that may still be taken.
--
-- Ads/Executor is ads/executor.py: Payload has its backstops, Masks the lists of what may be
-- overwritten, Updates and Creates the handlers, each a function from a request to the operations
-- that are sent, and Dispatch the choice of the handler and of the client. The client library is
-- the record Client. Safe has the laws of what a handler may build.
--
-- Not modelled: the matching of the GAQL patterns, URL and date parsing (parameters), the wiring
-- of the table of checks into the confirmation (which takes its checks as a parameter), the tools
-- that draft and read, the queries of Google, settings, HTTP and the texts of messages. An
-- infinite delta in the log leaves the total of Safety/Spend undefined, where the program skips
-- minus infinity and adds plus infinity; a lifetime too long for a date is drafted, where
-- timedelta raises; and the function of a tool that computes a delta at the confirmation does not
-- raise.
pub mod Base
pub mod Python
pub mod Auth
pub mod Safety
pub mod Tools
pub mod Ads
pub mod Tests
