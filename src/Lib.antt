-- ===== src/Lib.antt =====
-- The process engine of the repository and the designer's check of conditions, modelled and verified.
--
-- A process is drawn in the designer and stored as JSON. The engine projects the JSON to a canvas of
-- nodes and edges and moves tokens along it. Tokens and instances are rows that transactions update
-- under an optimistic lock, a version number. User tasks wait for a person who claims them; service
-- tasks wait for a job of the queue, which a worker claims and runs. Conditions on flows are checked
-- in the designer by a parser and at run time by the engine, which runs them as JavaScript. Whoever
-- calls the API has logged in and holds a session; grants on a process say what they may do with it.
--
-- The files and the code that they model, with paths from the root of the repository:
--   Common, Data             helpers; character classes, split and JSON values of JavaScript
--   Engine/Worker            api/src/engine/worker.service.ts: Defs has the row and the changes of a row,
--                            Queue the operations (claim, runOne, tick, enqueue, retryDead,
--                            reclaimStaleJobs)
--   Engine/Canvas            api/src/engine/engine.service.ts: projectCanvas (Project), findStartEvent and
--                            pickNextEdge (Defs), evalCondition (Condition), pickExclusiveGatewayEdge (Flow)
--   Engine/Mapping           the same file: getByPath, applyMapping, resolveVariableExpression,
--                            resolveDirectUserAssignee
--   Engine/Tokens            the same file: updateTokenWithLock, updateInstanceWithLock, the counts of live
--                            tokens; the rows are those of api/src/database/schema.ts
--   Engine/Tasks             the same file: claimTask, unclaimTask, reassignTask, suspendInstance and
--                            resumeInstance
--   Engine/Gateway           the same file: the join, the selection of flows and the split in advanceToken
--   Engine/Outbox            api/src/engine/outbox.service.ts: tick
--   Engine/Timers            api/src/engine/timer-scheduler.service.ts: the row and all operations (Defs)
--   Engine/Messages          api/src/engine/message-subscription.service.ts: all operations (Defs)
--   Engine/Idempotency       api/src/engine/idempotency.service.ts and the clean-up of its table in
--                            api/src/engine/cleanup.service.ts
--   Access/Permissions       api/src/permissions/process-permissions.service.ts: can, effective and
--                            filterVisible (Defs), grant, revoke and listAudit (Grants)
--   Access/Sessions          api/src/auth/auth.service.ts: refresh and the sessions (Defs), login with its
--                            lockout (Login), changes of a password (Passwords); mfaLogin with
--                            api/src/auth/mfa.service.ts (Mfa)
--   Access/Throttle          api/src/auth/login-throttle.guard.ts, on the window of Access/Window
--   Feel                     web/src/lib/feel/parse.ts: tokenize (Lexer), class Parser (Parser) and
--                            parseFeelCondition (Check)
--   Examples                 concrete inputs
--
-- A table is a list of rows, a transaction a function from the database to a result. Where a
-- transaction reads a row and writes it later, what others commit in between is a function `others`,
-- or there are two tables, the one that is read and the one that is written. Ids of rows are numbers.
-- Strings are lists of code units. The lexer and the parser take fuel: the lexer one unit more than
-- the input has characters, the parser six units for a token and eight more. A round takes a
-- character, and a token costs six calls at most.
--
-- Parameters stand for code that is not in the repository: running a condition as JavaScript, the
-- properties that objects and arrays inherit, bcrypt, SHA-256, the JWT service, the library of
-- one-time passwords, the errors of an insert, the ids, forks and random bytes that are drawn, and the
-- clock. Numbers of JavaScript are not modelled. Parameters also stand for code of the repository that
-- is not modelled: the handlers of jobs, which may add and cancel jobs while they run (Engine/Worker/
-- Keys says what they may do to the table), the rest of advanceToken at a split, and the callbacks of
-- timers.
--
-- Not modelled: the rest of advanceToken (events, boundaries, sub-processes, call activities),
-- durations and timer expressions, link events, the canonical text of a request, the delivery of
-- webhooks, connectors, the enrolment of a second step and the administration of users, the AI
-- service, import and export, validation rules and the user interface.
pub mod Common
pub mod Data
pub mod Engine
pub mod Access
pub mod Feel
pub mod Examples
