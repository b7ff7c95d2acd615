-- ===== src/Lib.antt =====
-- Hundi lets an agent spend from a wallet that a human signed for: the human signs an intent mandate
-- (a ceiling, merchants, an expiry), the agent signs cart mandates, and the facilitator settles a
-- cart only after a gate has checked it. This library models the gate (packages/core) and the parts
-- of the facilitator (packages/facilitator) that register, reserve, verify, execute and record
-- settlements, and the tool by which an agent purchases (packages/mcp-server).
--
-- Common: lists, texts (UTF-16 code units) and results that the parts share.
-- Core/Value, Platform, CanonicalJson: JavaScript values, JSON.stringify of a string, TextEncoder,
--   and packages/core/src/canonical-json.ts (canonicalJson is `canonical_json`).
-- Core/Hash, Signature, Crypto: hash.ts and signature.ts. SHA-256, Ed25519, P-256, JSON.parse and
--   TextDecoder are code that the repository only calls: they are the fields of the record `Crypto`,
--   which every definition that uses them takes. No law of theirs is assumed, except that what an
--   agent signs verifies with its key, where that is a hypothesis.
-- Core/CartItem, Mandate: mandate.ts; intentSigningBytes is `intent_signing_bytes`.
-- Core/Verify: verify.ts. `verify_chain` is verifyChain, split where the code's comments split it
--   (`check_signatures`, `check_purchase`, `needs_approval`); Verify/Schema holds the schema checks,
--   Verify/Checks the early returns, Verify/Meaning what each check stands for.
-- Facilitator/Db: the tables of packages/facilitator/src/db/schema.sql as one record of lists, with
--   the clock that unixepoch() reads. Facilitator/Action: calls that read and write it and may throw;
--   `tx` commits or rolls back, as in db/index.ts.
-- Facilitator/StateMachine: state-machine.ts and the unique indexes. Facilitator/Ledger: ledger.ts.
-- Facilitator/MandateRepo, VerifyLogic: mandate-repo.ts and verify-logic.ts, the gate's context.
-- Facilitator/SettlementService: settlement-service.ts. Facilitator/Idempotency: idempotency.ts.
-- Facilitator/Reconcile: reconcile.ts; what the payment provider answers is an argument, and so is
--   the row that was read before an `await`.
-- Facilitator/Routes: the handlers of routes/settlements.ts (POST /settlements), approvals.ts,
--   revoke.ts, mandates.ts, ceremony-tokens.ts, refund.ts and verify.ts, from the validated body on.
-- Facilitator/App: the requests that app.ts routes to these handlers, and the reconciliations, one
--   after another (`serve_all`), with the executor's steps, the sweeps, the clock and the provider's
--   reports. Routes/Webhook and Routes/Decisions: webhook.ts and POST /settlements/:id/decisions.
-- Facilitator/Executor: executor.ts. Executor/Reverify is the transaction that enters `settling`;
--   Attempts and Steps are runOnce and resumeSettling, where an `await` ends a step and the answer
--   to it is the argument `Wake` of the next; Queue is the promise chain and the set `inFlight`;
--   Budget counts the attempts.
-- Facilitator/Sweep, Sweep/Rules: sweep.ts.
-- Facilitator/Preserves: what a property of the database must satisfy for every handler to preserve
--   it (the record `Laws`, whose fields are the elementary writes), and that the handlers do. App
--   fills it three times: Verifies (the ledger), Solvent (Facilitator/Wallet: what a mandate has
--   spent), Charges (Facilitator/Charges: the attempts of a settlement).
-- Facilitator/Yields: what calls return, whatever the database.
-- Facilitator/Table, Distinct, Listed, Keeps: reading and writing a table, and what a call leaves
--   untouched.
-- Buyer: the agent's side. AgentTools is agents/scripted-brain/src/agent-tools.ts (the cart, its
--   signature, the polling), Variants and Purchase are
--   packages/mcp-server/src/tools/request-purchase.ts. trim and toLowerCase, which go by the tables
--   of Unicode, are the fields of the record `Casing`.
-- Tests: one mandate and one cart that run through the service and the executor, an outage of the
--   provider, and a purchase by an agent, with a toy digest.
--
-- A handler asks createSettlement, inside a transaction; that inserts the row (the reservation),
-- builds the gate's context from the tables, asks the gate, and moves the row along the state
-- machine, writing the ledger. It kicks the executor, which asks the gate again, drives the payment
-- and records what came of it; the webhook and the sweep record what the provider reports. The
-- identifiers that randomUUID gives, the clock and the provider's answers are arguments.
--
-- Not modelled: the user interfaces, the stores, the catalog and the HTTP wiring, which hold no state
-- that the wallet depends on; the schemas of zod, whose results the handlers take; the brains and the
-- scanner, which read what a language model or a page says; the texts of messages to people.
--
-- Bounds: numbers are natural numbers or integers, and the schema checks hold each amount below 2^53;
-- a sum of amounts is exact. Decimal printing has fuel n + 1, which is enough since each round
-- divides by ten. No other definition has fuel: a run of the executor and the polling
-- take the list of the answers that come.
pub mod Common
pub mod Core
pub mod Facilitator
pub mod Buyer
pub mod Tests
