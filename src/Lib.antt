-- ===== src/Lib.antt =====
-- A model of the core of arbokcore, a server that stores files in chunks and versions.
--
-- A client announces a file (`PrepareFileForUpload`) or a new version of one
-- (`UpdateFileMetadata`), sends its chunks, and marks the upload as complete. That puts a message
-- on a Redis list; a worker takes it, gives the new version the chunks that did not change, makes
-- it the current one, and tells the user's devices, which listen on a broker of server-sent events.
-- A download joins the chunks, through a cache.
--
-- The files, and the code that each of them models:
--   Prelude       shared names; text as a list of bytes, maps as association lists, integers and
--                 decimal numbers with Go's printing and parsing
--   World         the tables, the driver's answers, the clock, the generators, Redis and the disk;
--                 a Go function that returns a value and an error is an action on it, which returns
--                 a value, returns an error or panics
--   Api           core/api/response.go
--   Files         core/files/model.go; Chunks has `CalculateChunks`
--   Files/Info    `BuildFilesInfoResponse` of core/files/service.metadata.go
--   Files/Ordered `GetFileChunks` and `ListOrderedFileChunks` of the same file
--   Files/Requests  the bodies of its requests and answers
--   Files/Service `MarkUploadComplete`, `PrepareFileForUpload` and `UpdateFileMetadata`
--   Files/Listing `ListFilesForUser`, and `ListByUserID` of core/files/repository.go
--   Files/Repository  the other methods of core/files/repository.go and the writes of
--                 core/files/userfiles.service.go; Sql has core/files/queries.metadata.sql
--   Files/Downloads  core/files/download.service.go
--   Files/ChunkUpload  the chunk service of core/files/userfiles.service.go
--   Tokens        core/tokens
--   Queries       pkg/squirtle/querystore.go
--   Users         core/users/user.go; Creation has core/users/service.go
--   Queuer        pkg/queuer/redis.queue.go and pkg/templating/template.go; Streams has
--                 pkg/queuer/redis.stream.go, over the commands of the client
--   Notifiers     core/notifiers/metadata.go
--   Supervisors   core/supervisors/metadata.changelog.go: Merge has the functions on two versions,
--                 Executor has the worker, Executor/Taken what it takes over from the
--                 previous version, Producer the loops that read its queue and the
--                 users', Cycle the way from the answer to a client to the worker
--   Middlewares   web/middlewares/authnz.go
--   Routes        web/routes/metadatahandler.go and chunkhandler.go; Server has the routes of
--                 cmd/server/main.go, Events has web/routes/ssehandler.go
--   BlobStore     pkg/blobstore/localfs.go, and the interface that the chunk service takes
--   WorkerPool    pkg/workerpool/workerpool.go: an executable move of one goroutine at a time, and
--                 schedules of them; the dispatcher's channel can be closed, after which it
--                 gives zero jobs without end; Fan has its `Merge`
--   Workers       core/workers/metadata.manualreconcile.go
--   Brokers       pkg/brokers/sse_broker.go; Clients has the calls beside its loop, Channels what
--                 one channel is sent, Sync the consumer of pkg/brokers/metadata_sync_broker.go, and
--                 Demands its loop with the goroutine of its producer
--   Examples      runs on small inputs
--
-- A function of the model has the Go function's name in lower case with underscores. Where a Go
-- function looks at an error, the model continues in a helper by clauses on the result.
--
-- Bounds and parameters. Every loop is structural, so there is no fuel. A Go integer that the
-- program only compares and prints is an unbounded integer; a number that is parsed has the bounds
-- of int64. `CalculateChunks` rounds as float64 does: its eleven units, the powers of two up to 2 ^
-- 11, are enough for a number below 2 ^ 64, and so for every int64. The driver's answers are a list
-- in the world, so a theorem over every world covers every pattern of failures; SQL statements that
-- succeed act on the tables as their text says, and a transaction acts on them at its commit. The
-- order in which the engine returns rows with the same `created_at` is a parameter, and so is the
-- capacity of a slice that `append` has grown. The clock is read once for a request. Not under the
-- repository, and so parameters too: encoding/gob, SHA-256, the hash of a password, the generators
-- of ids and random texts, and the commands of Redis on streams. The blob store is an interface of
-- the chunk service, which the local file system fills; `filepath.Join` and what the operating
-- system says of errors and directories are parameters of that.
--
-- Not modelled: logs; the YAML that lists the files of statements; the set-up of connections and
-- processes; echo, which turns a panic of a handler into an answer. The goroutines of a batch of
-- chunk writes run one after the other.
pub mod Prelude
pub mod Api
pub mod Files
pub mod Tokens
pub mod Queries
pub mod Users
pub mod World
pub mod BlobStore
pub mod Brokers
pub mod Queuer
pub mod WorkerPool
pub mod Middlewares
pub mod Notifiers
pub mod Routes
pub mod Supervisors
pub mod Workers
pub mod Examples
