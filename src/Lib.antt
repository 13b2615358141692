-- ===== src/Lib.antt =====
-- LS Engine: a web server in Go that stores JSON documents in sharded SQLite files, runs scripts in a pool of
-- JavaScript machines, and serves pages, WebSockets and metrics. `cmd/main.go` loads the settings
-- (`internal/config`) and starts the server (`internal/server`), whose requests pass a chain of middleware
-- (`internal/plugins`) before they reach a handler, the JSON engine (`internal/jsondb`), the cache
-- (`internal/cache`), the WebSockets (`internal/websocket`) or a virtual machine (`internal/vm`). A page's imports are replaced by the
-- files they name (`internal/imports`), as the policy (`internal/security`) allows. All paths here are below `lsengine/`.
--
-- What models what:
--   Base        shared: texts as lists of bytes, Go maps as association lists, lists, signed integers.
--   Btree       internal/jsondb/btree.go. Nodes are a tree; a child that Go reaches through a nil pointer or
--               out of range is a panic.
--   Cache       internal/cache/cache.go: the memory cache, with the time and the choice that a map iteration
--               makes as arguments; Cache/Manager adds the two levels, with Redis as a parameter.
--   Hash        internal/utils/utils.go, and the hash of the rate limiter in internal/plugins/plugins.go.
--   Jsondb      internal/jsondb/engine.go: Insert, Update, Delete, FindPage and the collections; Jsondb/Bulk is
--               internal/jsondb/shard.go `BulkInsert`. SQLite and
--               encoding/json are the interface `Backend`, whose laws say what the SQL statements do.
--   Config      internal/config/config.go `LoadAppConfig`, and the port of cmd/main.go and
--               internal/server/server.go.
--   Middleware  internal/plugins/plugins.go: the chain, the filters and the rate limiter;
--               Middleware/Router is `Router`, with
--               the package regexp as a parameter.
--   Websocket   internal/websocket/ws.go: every goroutine of every connection, cut into steps that interleave
--               in any order, and the broadcast.
--   Vm          internal/vm/vm_pool.go: the pool of machines and its cleanup.
--   Paths       the functions of path/filepath that the program calls, on rooted and relative paths.
--   Security    internal/security/security.go: which files may be read and which scripts are refused; the
--               file system is a parameter.
--   Imports     internal/imports/import_processor.go: script blocks, `to-call` tags and `ls` script tags.
--   Metrics     internal/metrics/metrics.go: the counters and the averages.
--   Server      internal/server/server.go: the middlewares of the server and its handlers.
--   Cluster     internal/cluster/cluster.go: the workers, and the lock between the monitor and a restart.
--
-- Numbers: a count, a length or a time is a natural number; a Go integer that can be negative is a signed one
-- (`pos`, `negsuc`). The 32 bits of FNV-1a are written out. Counters do not reach 2 ^ 63.
-- Fuel: the B-tree's recursion takes one unit for a level of the tree; the inner loop
-- of the pool's cleanup takes one for a machine, the loop of the bulk insertion one for a batch. All else is structural recursion.
-- Concurrency: a handler is atomic except where a file says into which steps it is cut (Cache, Websocket, Cluster);
-- of the pool of machines, Get, Put and a round of the cleanup are.
--
-- Not modelled: input and output (files, sockets, signals, logs), SQLite, Redis, the JavaScript engine, JSON
-- decoding, Prometheus and package regexp, which are parameters where the code relies on them, and so is
-- the limiter of golang.org/x/time; logging, compression and tracing of internal/plugins; the routes of net/http, and the page of the
-- server; the start and the end of the JSON engine, which open and close the databases.
pub mod Base
pub mod Btree
pub mod Cache
pub mod Hash
pub mod Jsondb
pub mod Config
pub mod Middleware
pub mod Websocket
pub mod Vm
pub mod Cluster
pub mod Paths
pub mod Security
pub mod Imports
pub mod Metrics
pub mod Server
