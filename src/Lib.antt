-- ===== src/Lib.antt =====
-- A model of an S3-compatible object server in Go: its metadata store, its object backend, its policy
-- engine and signatures, and the middleware in front of them.
--
-- The program's parts. The server keeps its data in two places: the contents of objects are files
-- (internal/storage/local), everything else is rows of one bbolt database
-- (internal/storage/metadata/bbolt.go): buckets, objects and their versions, multipart uploads,
-- users, service accounts, sessions, policies and other documents of a bucket, audit logs. A request
-- passes the middleware (internal/middleware), which routes hosts, limits rates, answers CORS and has
-- the signature verified (internal/auth/sigv4.go). The HTTP handlers (internal/handler) ask the policy
-- engine (internal/auth/engine.go) whether it may go on; the engine reads the policies of the user and
-- of the bucket from the metadata store and evaluates their statements (internal/auth/policy.go).
--
-- Which file models which part.
--   Prelude and its children: shared names, Boolean tests, lists measured by native numbers, Go
--     strings as lists of bytes, words and decimal and hexadecimal numbers in them, int64 values,
--     errors as values.
--   Bolt/Defs: go.etcd.io/bbolt and encoding/json as parameters. `Bolt` is the record of operations,
--     `Laws` what their documentation promises, `Codec` json.Marshal and json.Unmarshal at one type.
--     Bolt/Contents, Bolt/Scan and Bolt/Handles derive what a bucket holds after an operation and what
--     a cursor loop over a prefix meets. Bolt/Sample is a database in memory that keeps the laws.
--   Storage: the data types of internal/storage/interface.go. Auth/Defs: those of internal/auth.
--   Metadata: internal/storage/metadata/bbolt.go, one function for each method, from arguments and a
--     database to a result and the next database; s.db.View leaves the database, s.db.Update keeps
--     the new one only where no error is returned.
--       Names and Rows: bucket names, key formats, and the reads and writes of a row.
--       Init: NewBboltStore. Buckets: CreateBucket to GetBucketStats. Objects: PutObject, GetObject,
--       DeleteObject, with any sequence of writes in Objects/Replay. Listing: ListObjects.
--       Listing/Versions: ListObjectVersions. Multipart: the multipart methods. Users and Accounts:
--       UserStore and ServiceAccountStore. Configs: policies, CORS, lifecycle, website,
--       notifications, domains, settings. Logs: sessions and audit logs.
--   Auth/Matching: internal/auth/policy.go. Auth/Engine: internal/auth/engine.go.
--     Auth/Tokens: internal/auth/session.go, with HMAC and base64 as the parameter `Crypto`.
--     Auth/Requests and Auth/Signatures: internal/auth/sigv4.go, the canonical request and the
--     verification, with SHA-256 and HMAC as `Digests`, the two account stores as `Accounts`, and
--     time.Parse and Format as `Clock`.
--   Local: internal/storage/local. Local/Paths: safePath, with filepath.Join and filepath.Clean over the
--     segments of a path. Local/Objects: BucketExists, HeadObject and DeleteObject, on the database and
--     a function from paths to the contents of files. Local/Listing: ListObjects, ListObjectsV2 and
--     ListObjectVersions. Local/Disk: methods that can fail half-way, and the outcome of each system
--     call as the record `Calls`. Local/Contents: the methods that move contents. Local/Batches:
--     DeleteObjects. Local/Multipart and Local/Uploads: the multipart methods. Local/Chunks: chunk.go,
--     the reader of signed chunks.
--   Middleware: RateLimit is ratelimit.go, Cors is cors.go, Hosts is vhost.go, Identity is auth.go of
--     internal/middleware.
--   S3: Names is bucket_name.go, the storage classes of types.go and internal/auth/acl.go; Responses is
--     the table of internal/s3/errors.go.
--   Handler/Access: CheckPolicy and getObjectKey of internal/handler/handler.go. Handler/Requests,
--     Handler/Writes and Handler/Reads: PutObject, DeleteObject, DeleteObjects, CopyObject, GetObject and
--     HeadObject of internal/handler/object.go, from the headers of the request to the response, with
--     the formats of dates as `Dates`; Handler/Stored and Handler/Ranged are about them.
--   Examples: small databases, files and requests, and each theorem at one of them.
--
-- Bounds and fuel. A byte is a natural number and a Go string the list of its bytes. An int64 is its
-- bit pattern, with sums modulo 2 ^ 64; the size of an object and the bounds of a range are read from
-- it as integers. Limits and part numbers of the type int are natural numbers, since a limit below 1
-- acts as 1 in every loop. A time is its nanoseconds. The loop of ListObjectVersions moves its cursor
-- by a Seek, so it runs on fuel, the number of rows, which Listing/Versions/Termination is about; io.Copy
-- from the reader of signed chunks runs on fuel, and two for each byte and two more are enough, which
-- Chunks/Copying is about; all other loops recur on the rows, the parts or the bytes. Decimal digits
-- are written with fuel 19, enough for an int64.
--
-- What is assumed of code outside the repository. A bucket of the database is a sorted list of rows
-- without two of one key; Put succeeds within the limits of bbolt on the sizes of keys and values;
-- a Seek goes to the first key from its argument on, and nothing is assumed of which rows a loop of
-- Next comes to that deletes the rows under its cursor, which bbolt does not promise;
-- json.Unmarshal of a json.Marshal gives the value back where it is stable under JSON (valid UTF-8,
-- years 0 to 9999). HMAC, MD5 and SHA-256 are any functions, and base64 one that decodes what it
-- encodes and writes no dot. sort.Slice leaves rows of equal times in some order; the model keeps
-- their order. A call on a nil bucket handle panics, which is the error `panic`. A system call either
-- does its work or returns an error and changes nothing; the calls of one method share an outcome for
-- each kind. The source of a body gives as many bytes as it has and is asked for, and its end together
-- with the last of them or by itself afterwards, as an io.Reader may. A query that url.Values encodes
-- is read back as it was. rate.Limiter is a state with a function `allow`.
--
-- What is not modelled: the rest of the HTTP layer (the handlers of internal/handler for buckets,
-- multipart uploads, administration and forms, and internal/server), which parses requests, calls one
-- operation and prints its result; NewBackend and its clean-up of old temporary files; replication, webhooks, the lifecycle
-- worker, metrics, configuration and the commands, which need a network, a clock or a process, or only
-- pass values on. Two requests that run at the same time on one path are not interleaved.
pub mod Prelude
pub mod Bolt
pub mod Storage
pub mod Auth
pub mod Metadata
pub mod Local
pub mod Middleware
pub mod S3
pub mod Handler
pub mod Examples
