-- ===== src/Lib.antt =====
-- The core of the code review bot: pipelines that turn deliveries of a message bus into reviews,
-- outcomes, replies and indexed code, the adapters and the gateway that make webhooks into jobs, the
-- sync of review rules, the backfill of past comments, and the configuration with its overlay.
--
-- How the parts interact. An adapter verifies a webhook and makes it an event; the gateway
-- publishes a job for it under an idempotency key (Schemas). A worker consumes deliveries. The
-- review pipeline looks the repository up, begins a run under the job's key, checks the budget,
-- fetches the diff, retrieves related code, past comments and rules, assembles a prompt, asks the
-- LLM, and posts the comments that name lines of the diff. The feedback pipeline records reactions
-- and replies to those comments, and may answer a question in the thread. The indexer embeds the
-- code of changed files, the backfill the comments of past pull requests; both feed the retrieval.
-- The settings of the admin interface are laid over the configuration of the file, and each
-- process reloads them at run time.
--
-- Files, with the code they are about:
--   Ports         internal/ports/*.go, internal/ports/store/types.go, internal/schemas: the values
--                 that cross the ports, in the fields that the modelled code reads or sets
--   Schemas       internal/schemas/jobs.go: jobs and their idempotency keys
--   Exec          the calls of the ports as events (below), Exec/Counting: how many events an action
--                 adds, Exec/Working: worlds whose cache and LLM work
--   Core/Budgets  internal/core/budgets: ExceedsDailyCap, MaxOutputTokens
--   Core/LlmOutput internal/core/llm/parse_output.go: ParseOutput, validateComment, stripFences
--   Core/Retry    internal/core/llm/retry.go: ChatWithRetry, tryTier, backoffFor
--   Core/Prompt   internal/core/prompt: Assemble, buildUserPrompt
--   Core/Retrieval internal/core/retrieval: EmbedQuery, RetrieveCode, RetrieveComments,
--                 RetrieveRules and the functions that render what they find
--   Review        internal/core/pipelines/review/pipeline.go. Diff: validRightLines,
--                 commentLinesValid, extractChangedFiles. Context: fetchContext, safeFetch.
--                 Posting: the loop over the LLM's comments, summaryBody. Ending: failOpen,
--                 postBudgetExceeded, postNoChanges. Publishing: the part of process behind the
--                 LLM's answer. Process: Handle and the rest of process
--   Conversation  internal/core/pipelines/feedback/conversation.go: maybeReply, matchesTrigger
--   Feedback      internal/core/pipelines/feedback/pipeline.go: Handle (`consume`), classify
--   Gateway       cmd/webhook-gateway/main.go: webhookHandler, the routes, parseSlashCommand, and in
--                 Limiter the limiter of requests
--   RulesSync     internal/core/pipelines/rulessync/pipeline.go: Run, parseFiles, parseRule, embed
--                 Origins: where the embeddings come from, for all pipelines that look them up
--   Walks         the order in which a walk over a Go map meets its entries
--   Indexer       internal/core/pipelines/indexer/pipeline.go: Handle (`handle_push`), process
--                 (`process_push`), collectChunks, splitForEmbedding
--   Backfill      internal/core/pipelines/backfill/pipeline.go: Run (`run_backfill`), processPr
--   Schemas/Config internal/schemas/config.go: Validate with its defaults
--   Overlay       internal/config/overlay.go: ApplyOverlay, ReadCurrent; ExpandEnv of
--                 internal/config/load.go. Snapshots: ExportConfig and ImportConfig of
--                 internal/admin/export_import.go
--   Reloader      internal/boot/reloader.go: NewReloader, the body of Run's loop (`poll`)
--   Admin         internal/admin: RateLimiter is ratelimit.go, Janitor retention and sweep of
--                 janitor.go, Sessions session.go and the login of server.go
--   Adapters      Github: VerifyWebhook and the parse functions of
--                 internal/adapters/vcsgithub/source.go. Bitbucket: the same of
--                 internal/adapters/vcsbitbucket, and its PostReview
--   Prelude, Dict texts, lists, integers and maps that the parts share
--   Examples      tests, and the theorems at concrete inputs
--
-- State. The pipelines keep no state of their own between calls: their effects are calls of the
-- stores, the VCS, the LLM, the bus and the clock. Each call is an event; the state is the record
-- of all events so far, newest first, and what a call returns is a function, arbitrary in every
-- theorem, of that record and the call. So any store, VCS and LLM is covered, with any failures,
-- and also whatever other processes do between two calls. A function that returns early in the code
-- is cut at its calls into functions by clauses on what they return. A missing VCS adapter is a
-- panic, which ends the run. A store that the code checks for nil may be missing (Deps); those that
-- it calls without a check, such as PrRuns.Begin and Comments.Upsert in the review pipeline, are
-- taken to be wired.
--
-- In the gateway, an adapter's verification of a request is a call with an arbitrary answer; the
-- adapters' own verification stands apart. The two limiters are functions of their map of buckets and
-- the time. The reloader is a record, its ticks are steps of a relation. A walk over a Go map takes
-- any order: choices, arbitrary in every theorem, say where each entry stands.
--
-- Numbers and texts. Go's int is an integer; where the scan of a diff increments one, and
-- where the janitor multiplies a duration, it wraps around at 64 bits. Dollar amounts are integers in a fixed small unit. Times, durations and
-- numbers of attempts are natural numbers. A text is the list of its code points, so it is valid
-- UTF-8, and `%q` adds quotes and escapes nothing.
--
-- Bounds. The loop of Assemble is recursion on fuel 5, which is enough: each turn but the last drops
-- one of four sections. All other loops are structural.
--
-- Not modelled. Logging, and the stopwatch that only feeds the log. Parameters are encoding/json,
-- YAML, SHA-256 and HMAC, hexadecimal notation and base64, the printing and reading of dollar
-- amounts, the token estimator, truncateToTokens, which computes a ratio of floats, and the texts
-- of the system prompts. Contexts are cancelled only while a retry waits. The HTTP clients of the
-- adapters, the SQL of the stores, the message buses, the pages of the admin interface, the
-- decoding of the configuration's file and the wiring of processes are not part of this
-- development: they are calls of libraries with little logic of their own.
pub mod Prelude
pub mod Dict
pub mod Walks
pub mod Ports
pub mod Schemas
pub mod Exec
pub mod Core
pub mod Review
pub mod Conversation
pub mod Feedback
pub mod Gateway
pub mod RulesSync
pub mod Indexer
pub mod Backfill
pub mod Overlay
pub mod Reloader
pub mod Admin
pub mod Adapters
mod Examples
