-- ===== src/Lib.antt =====
-- Weldall: the parts of the server that decide, and theorems about them.
--
-- Weldall gives agents and command lines access to a company's resources. Its server keeps scopes,
-- resources, machines, skills and connectors, which a declarative manifest may describe: the
-- planner compares the manifest with the current state and makes a plan, whose digest a later
-- apply has to repeat; objects can also be imported into a workspace, moved in it and given up.
-- For the MCP sources of connectors it discovers the tools of the upstream server, and shares and
-- caches each catalog.
--
-- - Prelude: lists, options, numbers, the maps and the stable sort that the parts share.
-- - Mcp.ToolCache: createMemoryMcpToolCache of apps/weldall/src/server/mcp/tool-cache.ts. The
--   state is a record `Cache` of the two maps and the two counters of the closure, with a pool of
--   all flights, as a waiter may hold one that the map no longer names. Each stretch of `getOrLoad`
--   that runs without a wait is a function (`get_or_load`, `land`, `finish`, `leave`), and `run`
--   executes any sequence of them. A map is an association list in insertion order.
-- - Iac.Json: JSON values, JSON.stringify, and canonicalJson of
--   apps/weldall/src/server/iac/contracts.ts. Numbers are natural numbers.
-- - Iac.Contracts: the types of contracts.ts and planner.ts beside it, and digests.
-- - Iac.Desired, Iac.Decision, Iac.Sweep, Iac.Document, Iac.Planner: desiredObjects and createPlan
--   of apps/weldall/src/server/iac/planner.ts: the decision for one desired object, the CLI
--   settings, deletions and confirmations, the document that the digest covers, and the whole.
-- - Iac.Graph, Iac.Order: mcpGraphBlockers, compareActions and orderMcpActions of the same file.
-- - Iac.Rows, Iac.Loading: loadPlanningState of the same file, from the rows that its queries read
--   to the objects and the blockers, with secretPrimitiveBlockers of iac/secret-primitives.ts. What
--   schemas and connector providers make of untyped values is the record `Schemas`.
-- - Iac.Service: importIac, unmanageIac and moveIacState of
--   apps/weldall/src/server/iac/service.ts, with the record of operations (beginOperation,
--   completeOperation), findNatural in Natural and the table of bindings in Bindings. The advisory
--   lock of the source makes each request one step; a transaction that throws leaves the database as
--   it was. `handle` in Steps is one request, and `run` a sequence of them. Audit events are the
--   arguments of writeIacAudit. Of applyIac, Administrators and References model
--   assertFinalAdministratorSafe and assertFinalReferencesSafe.
-- - Connectors.Access: connection-access.ts of apps/weldall/src/server/connectors/core, with
--   canAccessConnector of connectors/access.ts. An actor is prepared in one state of the database
--   and a connection is resolved in a later one, so both states are arguments. The scopes of a
--   user's email, which policy/resources.ts reads, are a parameter.
-- - Sdk.Replay: the in-memory store of packages/sdk/src/replay.ts, and consumeReplay over it.
-- - Cli.Sessions: SessionManager of apps/cli/src/services/session-manager.ts. Concurrent callers
--   are a sequence of reads, turns at the lock and events of the refresh of the one that holds it;
--   the abort signal of a caller is part of its read and of its turn.
-- - Sdk.McpJson: assertMcpJson of packages/sdk/src/mcp/contracts.ts, the walk with its stack.
-- - Connectors.Tests, Sdk.Tests, Cli.Tests, Iac.Tests, Iac.Loading.Tests, Iac.Service.Tests,
--   Mcp.ToolCache.Tests: runs, and each theorem at concrete data.
--
-- What the code takes from elsewhere is the record `Host`: the collation of `localeCompare`,
-- SHA-256, and the schema that parses the dependencies of a skill, which may fail. Manifests are
-- taken as parsed by their schema. `Array.prototype.sort` is a stable insertion sort, and
-- `getConnectorProvider` finds the three providers of connectors/registry.ts.
--
-- Fuel: eviction gets one round more than there are entries, as each round removes one; the
-- ordering of actions gets as many rounds as there are actions; the walk over a JSON value gets
-- two rounds more than the nodes it may count; a number is printed with at most one digit more
-- than its value.
--
-- Not modelled: the clock within one stretch (a stretch reads it once), the hashing of cache keys,
-- the rest of applyIac, the schemas of manifests, other errors of the database than a repeated
-- binding, errors of a group provider, and the other parts of the server, the SDK and the command
-- line.
pub mod Prelude
pub mod Mcp
pub mod Iac
pub mod Sdk
pub mod Connectors
pub mod Cli
