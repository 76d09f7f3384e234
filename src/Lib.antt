-- ===== src/Lib.antt =====
-- The 0-stor object store: a server that keeps blobs in namespaces, and a client that cuts data into
-- chunks, stores each over a cluster of such servers, and keeps the metadata of what it stored.
--
-- The server. A request names a namespace by the label in its metadata. The object service makes of the
-- label a scope of keys, lets the database put a sequence number behind it for a new object, and stores
-- the data with a checksum.
--   ServerTypes, Encoding: server/types.go and server/encoding (encoding.go, buffer.go). Every encoder
--     and decoder over the zero-allocation buffers, with the CRC32 of Go's standard library. The bytes of
--     a slice are natural numbers; AreBytes says that they are below 256, and integers carry their bound.
--   Db: server/db (db.go, keys.go) and server/db/memory/memory.go. Database is the interface DB as a
--     record over a state; Db.Laws has the laws that its clients rely on, and fills them for the in-memory
--     store. A call of the store is one step, since it holds the lock; the order in which Go
--     visits a map is an argument. The sequence counter wraps at 2^64.
--   ObjectApi, NamespaceApi: server/api/grpc (object_api.go, namespace_api.go, middleware.go) and
--     server/api/object.go. All handlers over any database; a stream is its Send over a state.
--   Auth: server/jwt (verifier.go, method.go). The scopes of a token, with the cache and the library that
--     verify it, are the argument get_scopes.
-- The client. A pipeline processes and hashes data and gives it to a chunk storage, which writes one or
-- more objects to the shards of a cluster and keeps in the chunk where they are.
--   Cluster: client/datastor (cluster.go, types.go) and the chunks of client/metastor/metatypes. Cluster
--     is the interfaces Cluster and Shard as a record over a World, the state of the servers and of the
--     network. The random numbers of the iterator are an argument.
--   Storage: client/datastor/pipeline/storage. Storage.Random, Storage.Distributed and Storage.Replicated
--     are random.go, distributed.go and replicated.go; Storage.Erasure is the ReedSolomonEncoderDecoder of
--     distributed.go. The coder of github.com/templexxx/reedsolomon is the parameter EncodeReconster with
--     the contract IsErasureCode; IsDurable says that a shard keeps what it acknowledges. The goroutines
--     that write, check and delete are step relations (Writing.Step, Checking.Step, Deleting.Step) on what
--     the channels hold and the workers do, so that a theorem on runs is one on every schedule; workers
--     are interchangeable, and a shard answers a request in one step. ReadChunk of the distributed storage
--     takes the order in which its workers finish.
--   Pipeline: client/datastor/pipeline. Pipeline.SingleObject is single_object.go over any chunk storage,
--     processor and hasher; Pipeline.Storages makes one of the random storage. Pipeline.Splitter is
--     async_splitter.go: Pipeline.Workers has the steps of the goroutines of one stage, Pipeline.Flow those of
--     Write and of Read, which put two stages behind a source; Pipeline.Collecting and Pipeline.Composing are
--     the goroutines that bring chunks and data into order, and Pipeline.Splitter.Jobs has Check, Repair
--     and Delete. Writes, Reads, Checks, Repairs and Deletes relate a call to what it returns for some
--     schedule. A goroutine takes any item of its channel. The channel of a stage of Write or Read holds as
--     many items as the stage has goroutines, and a sender waits while it is full; the goroutine that
--     receives the results takes each at once, as do the channels of Check, Repair and Delete, which
--     makes more runs possible. flow_work bounds the steps of a run. An io.Reader is the list of what its calls give, and the writer takes all
--     that it is given. The fuel of write_buffered is one more than the entries of the buffer, each of
--     which it uses once. Pipeline.Config is config.go over the constructors that it calls.
--   Processing: client/processing and client/datastor/pipeline/crypto/hash.go: chains, the encrypter over any
--     cipher, and the registries of types; those of client/metastor/encoding/encode.go are alike.
--   Client.Metastor: client/metastor/client.go over any database, with the loop of Update of
--     db/badger/badger.go; the changes that others make between its attempts are an argument.
--     Client.Metastor.Once is about callbacks that do their work at the first attempt only.
--   Client.Objects: client/client.go and WriteLinked of client/client_linked_data.go, over any pipeline and
--     metadata client that share a world. The time is an argument. Client.Assembled is NewClient, and the
--     client of a single-object pipeline.
--   Client.Traversal: client/client_linked_data.go. The loop of Next takes fuel, since it does not end on
--     metadata that are linked in a circle; as much as the chain is long is enough. Client.Traversal.Ranges has the epochs of the two iterators.
--   Client.Tokens: client/datastor/jwt.go. The cache over a getter of tokens, with the LRU cache of
--     golang-lru as a parameter.
--   Daemon: daemon/api/grpc (file_api.go, data_api.go, metadata_api.go, utils.go) over the client and a file
--     system. The client reads all of a stream, and the fuel of parts_of is the length of the data, of
--     which every message takes at least one byte.
-- Base has what these share: Boolean tests and lists over the native numbers, the results of fallible
-- calls, where a panic is a third case, byte slices, association lists, and runs of step relations.
-- Tests has runs at concrete values.
--
-- Sizes and counts are natural numbers. Logging is left out. Not modelled: compression, hashing, the
-- badger store and the other libraries, the cache of the server's verifier, statistics, gRPC, the etcd
-- database, configuration files and the commands.
pub mod Base
pub mod ServerTypes
pub mod Encoding
pub mod Db
pub mod ObjectApi
pub mod NamespaceApi
pub mod Auth
pub mod Cluster
pub mod Storage
pub mod Processing
pub mod Pipeline
pub mod Client
pub mod Daemon
mod Tests
