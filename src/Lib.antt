-- ===== src/Lib.antt =====
-- WaveHouse is a gateway in front of ClickHouse: it takes events in over HTTP, queues them on a
-- message broker by topic, writes them in batches, fans them out to live subscribers, and answers
-- structured queries, all under a policy of roles. This library models the parts of it that decide
-- who sees which rows and columns, what text reaches the database, the broker and the cache, and how
-- its services share leases, back off and stay alive.
--
-- How the parts interact: pkg/policy resolves a role's grant on a table (`Evaluate`);
-- internal/query builds parameterized SQL from a query, the table's schema and that grant
-- (`Build`), quoting names by pkg/chsql; the stream asks the same grant for the rows in memory
-- (`RowVisible`). Topics, subjects and cache keys are joined from escaped fields by
-- internal/keyenc, under tenants of pkg/tenant. internal/cache guards its server by a breaker and
-- keeps the invalidations that it still owes; the key of a cached result folds the versions of all
-- that it depends on and changes with them. Named pipes (pkg/pipes) write a request's values and
-- its token's claims into a template as literals, by the same claim resolution as a policy, and the
-- scanner of pkg/chsql tells which parts of a SQL text are quoted and which statements write. The
-- ingest workers back off from a ClickHouse that is down, a coordinator gives out leases on names,
-- and a wheel of buckets keeps the connections of the live streams open.
--
-- Files, and the code that each models (paths from the repository's root):
--   Prelude          shared lists, results, texts of bytes, Go's string-keyed maps, integers
--   Keyenc           internal/keyenc/keyenc.go: Escape, Unescape, Join, AppendJoin, Split
--   Tenant           pkg/tenant/tenant.go: Parse
--   Mq/Subject       internal/mq/subject.go, and Topic and its key of internal/mq/mq.go
--   Chsql/Quote      pkg/chsql/chsql.go: QuoteIdent, BindUnsafe
--   Chsql/Scan, Chsql/Blank, Chsql/Mutation, Chsql/Opaque
--                    pkg/chsql/scan.go: the steps over tokens, StripLeadingComments, IsMutation,
--                    Opaque
--   Pipes/Literal, Pipes/Template, Pipes/Bind
--                    pkg/pipes/pipes.go: formatParamValue and claimLiteral, the placeholders with
--                    Claims, Skeleton and CheckTemplate, BindParams
--   Policy/Types     the structs of pkg/policy/policy.go
--   Policy/Roles     pkg/policy/roles.go and ResolveRole
--   Policy/Values, Policy/Canonical, Policy/Template
--                    decoded JSON, pkg/policy/canonical.go, pkg/policy/claims.go, resolveTemplate
--   Policy/Predicates, Policy/Evaluate, Policy/Columns, Policy/Validate
--                    pkg/policy/policy.go: resolvePredicates, predicatesToSQL, Evaluate,
--                    IsColumnAllowed and the other questions to a grant, Validate
--   Policy/Numeric, Policy/RowFilter
--                    pkg/policy/numeric.go and pkg/policy/rowfilter.go
--   Query/Ast, Query/Authorize, Query/Where, Query/Build
--                    internal/query/ast.go, errors.go and builder.go
--   Cache/Breaker, Cache/Pending, Cache/Versions
--                    internal/cache/breaker.go, pending.go, version_manager.go
--   Ingest/Assign    internal/ingest/assign.go and Mix of pkg/shard: units given to live slots
--   Ingest/Backoff, Ingest/Backoffs
--                    internal/ingest/backoff.go: one backoff, and the set of them
--   Coord/Local      internal/coord/local.go: Local, Peer, the lease table and its terms
--   Stream/Heartbeat internal/stream/heartbeat.go and the set of internal/stream/bucket.go
--   Tests            the theorems on concrete inputs
--
-- State and operations: a struct is a record and a method takes and returns it; a mutex makes each
-- method one step (Close of internal/coord, which frees its terms one by one, is split too), and a
-- sequence of calls is a list. A Go map is an association list, a nil
-- pointer is `none`, an error is the error side of a Result, and a string is its list of bytes.
-- A query's nil dereference is the error `nil_select`. Errors keep what they are about, not their
-- words.
--
-- Bounds and fuel: `decimal` prints a number with fuel one more than the number, and the integer
-- bounds of 256 bits with 80, which is more than their digits.
-- The loops of the SQL scanner have the text's length as fuel, and each round takes a byte or more.
-- Every other loop is structural, some with a count of the bytes that are still to pass. The
-- generation of owed bumps, the versions of the cache and the tokens of leases wrap at 2^64. Times
-- and durations are natural numbers of nanoseconds, a duration that is not positive being 0 where
-- the code treats all alike.
--
-- Parameters: strings.ToLower, json.Valid, strconv.ParseFloat, the column's ParseTime, and the
-- clock with the reading and writing of times are arguments of the definitions that use them, as
-- are the backoff's random source and the order in which Go ranges over a bucket. A float that is
-- bound into a pipe is what the code asks of it: the integer it equals, if any, and its `%g` text.
--
-- Not modelled: HTTP handlers, authentication, configuration and settings reload, the connection
-- to ClickHouse, discovery, ingest batching and the claim of shards, the broker clients, the cache's
-- wire format, local store and Redis client, deduplication, the hub of the streams, leases kept by
-- the broker, observability and the command line; a float64 in a payload, since claims and payloads
-- are decoded with numbers as text; relative durations in days and weeks, which go through
-- floating-point text; and decoding of the policy document and the query from JSON.
pub mod Cache
pub mod Chsql
pub mod Coord
pub mod Ingest
pub mod Keyenc
pub mod Mq
pub mod Pipes
pub mod Policy
pub mod Prelude
pub mod Query
pub mod Stream
pub mod Tenant
pub mod Tests
