-- ===== src/Lib.antt =====
-- The services of the Cascade feed engine: the Feed Service (services/feed-service), the Fanout
-- Worker (services/fanout-worker) and the Post Service (services/post-service).
--
-- A user creates or deletes a post through the Post Service, which commits it to PostgreSQL, caches
-- it and publishes an event to Kafka. The Fanout Worker consumes the events of posts and follows and
-- keeps the timelines in Redis: posts of ordinary authors are pushed to each follower, posts of
-- celebrities go to one global set. The Feed Service answers GetFeed: it reads candidates from these
-- timelines, hydrates the posts through the cache and the Post Service, loads ranking signals, ranks
-- the posts and cuts a page out of them, with a token for the next page.
--
-- Each service reads its settings from the environment and is put together by its main function. For
-- a benchmark, the Feed Service and the Post Service can bypass Redis and read PostgreSQL alone.
--
-- Files, with the code below services/<service>/internal, or below services/<service> for cmd/:
--   Common/*                numbers, lists, maps, sorting, decimal text, and `Exec`: a Go function that
--                           acts on a world and returns a value or an error
--   Common/Env              getEnv, splitCSV and boolEnv of the three config/config.go
--   Redis                   the commands that the services send, and a client as a record
--   Database                rows as pgx gives them, and the tables of migrations/
--   Grpc                    observability/grpc.go of the Feed and Post Services
--   Json                    the JSON objects of the events: decoding a field by its name
--   Feed                    feed-service feed/feed.go
--   Feed/Cursor             cursor/cursor.go: Encode, Decode
--   Feed/Ranking            ranking/heuristic.go: Rank
--   Feed/Select, Feed/Page, Feed/Server
--                           feedserver/server.go: mergeIDs and selectPosts, pageStart and the page,
--                           GetFeed
--   Feed/Candidate          candidate/redis.go: Load
--   Feed/Candidate/Postgres candidate/postgres.go: Load, and its three SELECT statements
--   Feed/Hydrator           hydrator/redis_post.go: Hydrate
--   Feed/Hydrator/Postgres  hydrator/postgres.go: Hydrate, and its SELECT statement
--   Feed/Bypass             the two of them under selectPosts
--   Feed/Signals            signals/postgres.go: Load
--   Feed/Config, Feed/Metrics, Feed/Main
--                           config/config.go, observability/metrics.go, cmd/server/main.go
--   Fanout/Events           fanout-worker events/events.go: ParsePost, ParseFollow
--   Fanout/Processor        fanout/processor.go and fanout/decision.go: Process
--   Fanout/Timeline         timeline/redis.go: all operations
--   Fanout/Consumer         consumer/consumer.go: Handle, Run, PublishDLQ
--   Fanout/Repository       repository/postgres.go: the loops over the rows
--   Fanout/Warm             warm/warmer.go: Run, the job that rebuilds the timelines
--   Fanout/WarmCommand      cmd/warm-cache/main.go
--   Fanout/Config, Fanout/Metrics, Fanout/Worker
--                           config/config.go, observability/metrics.go and lag.go, cmd/worker/main.go
--   Posts/Server            post-service postserver/server.go: CreatePost, GetPosts, DeletePost
--   Posts/Repository        repository/postgres.go: the transactions around the SQL
--   Posts/Cache, Posts/Cache/Noop, Posts/Events
--                           cache/redis.go, cache/noop.go, events/kafka.go
--   Posts/Config, Posts/Main
--                           config/config.go, cmd/server/main.go
--   Deletion                the way of a deletion through the three services
--   Examples/*              small instances of the services, at which the theorems are applied
--
-- Code that is not in the repository is a parameter: PostgreSQL, Redis, Kafka, gRPC clients, the
-- text of JSON (Json has the members of an object and how the structs of the events take them),
-- base64, URL parsing, the texts of durations and of float64, timers, and the arithmetic of float64
-- (Feed/Float). What a theorem needs of it is a record of laws among its hypotheses.
--
-- Representation: int64 and time.Time (nanoseconds) are integers; the sums of the ranking and the
-- pause before a retry wrap round at 64 bits, and Time.Sub stops at the largest Duration. A Go
-- string is a list of bytes. A map is an association list, and a range loop over one takes its
-- order. An error is what the code tests of it. sort.Slice is a stable insertion sort: all orders
-- in the code are total on different posts. Logging, metrics of time, tracing IDs and the text of a
-- gRPC status are left out.
--
-- Fuel: the batch loops (`each_batch`) have the length of their list, which is enough for a positive
-- batch size; Handle has max_retries + 1 attempts, which the retries never exceed; Run has a number
-- of polls, since it ends only by an error; the SCAN loop of Redis has a number of rounds, since only
-- Redis ends it. `collect` follows page tokens for one call more than there are posts.
--
-- The SELECT statements of the bypass are functions on the tables of migrations/; the other statements
-- are parameters without a meaning of their own.
--
-- Not modelled: the HTTP servers of the metrics, contexts and deadlines, the gateway, the social graph
-- service (not Go) and the frontend.
pub mod Common
pub mod Redis
pub mod Database
pub mod Grpc
pub mod Json
pub mod Feed
pub mod Fanout
pub mod Posts
pub mod Deletion
mod Examples
