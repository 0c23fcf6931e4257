-- ===== src/Lib.antt =====
-- MegaCorps: the rules that move a card through a company of agents.
--
-- The server keeps cards on a board. Agents work on them, reviewers judge the work, managers take
-- over when a run fails, and a parent card waits for its children. The rules are small functions
-- that routes and the dispatcher feed with rows; these are modelled, with what they write.
--
-- * Workflow models the statuses, actors and actions of packages/shared/src/index.ts and
--   validateCardTransition; Workflow/Guards the three places that apply it:
--   assertCardTransition (apps/server/src/card-actions.ts), assertStatusMove (runner-routes.ts)
--   and the update of a card (routes.ts). Workflow/Steps makes one accepted request a step.
-- * Panel models apps/server/src/review-panel.ts: who reviews (Compose), how reports are merged
--   (Merge), and how a round is decided, answered, verified and taken over (Rounds). A round reads
--   the merged findings; its verdict becomes an action of the workflow.
-- * Recovery models apps/server/src/card-recovery.ts: Store holds the rows that its transactions
--   read, Owner is ownerFor, Request requestCardRecovery as a function from the store to the store
--   and the returned row, Report and Apply applyRecoveryReport, Human finishHumanRecovery.
--   completionCondition is completion-guard.ts's. Cycle makes each transaction a step.
-- * Retry models apps/server/src/run-retry.ts: Ready when a run may be tried, Complete the
--   transaction that settles a run, which requests a recovery when the attempts are used up.
-- * Protocol models apps/server/src/protocol-repair.ts: Repair is what the card keeps, Fallback is
--   protocolFallback, Record is recordProtocolFailure, which may request a recovery as well. Ends is about both
--   together.
-- * Splitting models apps/server/src/card-splitting.ts: Plan is evaluateSplitPlan, Cycles
--   hasDependencyCycle.
-- * Authority models packages/shared/src/agent-authority.ts and apps/server/src/position-authority.ts.
-- * Runners models apps/server/src/runner-availability.ts; its cache is passed from call to call.
-- * RateLimit models apps/server/src/rate-limit.ts: Policy chooses the policy and the client, Buckets
--   is the hook; Sweeping has the specification, a limiter that never deletes a bucket.
-- * Children models the reviewer's gate and the child policies of apps/server/src/dispatch.ts.
-- * Brainstorm models planBrainstormTargets and brainstormRoundComplete of
--   apps/server/src/brainstorm.ts.
-- * Merge models apps/server/src/merge-gate.ts: Urls reads the texts, Candidate is
--   selectMergeCandidate, Plan resolveMergeEvidence with the provider's answers, Identity planMergeGate
--   with reviewIdentityMatches of review-identity.ts, Verdict mergeVerdict, Events what a webhook gives
--   it. A plan that waits becomes the row (parked_wait) that the verdict on an event reads.
-- * Prelude holds JavaScript's array and text operations, Examples the concrete inputs.
--
-- Identifiers, slugs and times are natural numbers. A text is the list of its UTF-16 units; the
-- change of case is modelled for ASCII letters. A JavaScript map built from rows keeps the last row
-- of a key, and the models do the same. A transaction is one function, since the source locks the
-- card's row first. What the source throws or sends as an error is a value here.
--
-- Two walks climb the chart of bosses, in composeReviewPanel and in ownerFor; protocolFallback writes
-- the second one again, and its model uses ownerFor's. Both keep a set of the agents seen and stop at one that is in it. Here they run on fuel, two more than the number of
-- agents: each step but the last meets an agent of the chart that was not seen before.
--
-- The search of hasDependencyCycle runs on fuel as well, one more than the number of keys: the nodes
-- on its stack are different keys. Its result without fuel would be none.
--
-- The decimal digits of a number run on fuel too, one more than the number, and it has
-- at most as many digits.
--
-- A malformed reply takes the wording of its feedback, the key of its event and the availability of
-- runtimes as parameters.
--
-- The merge gate takes the origin of a URL as the platform's URL reads it, the provider's addresses
-- and answers, and what the modules on delegation and reports find; a stored candidate key is taken as
-- storedCandidateKey reads it.
--
-- Other parameters are hasAcceptance (of splitting), the numbers of the environment (of the limits),
-- and for a settled run the wording of the reason and the database trigger that gives a written card
-- its merge gate version. The characters that \p{L}\p{N} matches and the order of localeCompare are
-- parameters of mergeFindings: they are tables of the platform. The floating point numbers that add
-- the weights of child cards are a parameter too. Timestamps that nothing reads, and the
-- wording of messages, are left out.
--
-- Not modelled: the panel round that may open after a recovery, the rows of merge waits and intents
-- with the webhooks, dependencies of cards, the answer of a helper to malformed replies; the
-- database, the adapters, prompts, chat, the web app and the command line tool, which are input and
-- output or text.
pub mod Prelude
pub mod Workflow
pub mod Panel
pub mod Recovery
pub mod Children
pub mod Brainstorm
pub mod Splitting
pub mod RateLimit
pub mod Retry
pub mod Authority
pub mod Runners
pub mod Protocol
pub mod Merge
pub mod Examples
