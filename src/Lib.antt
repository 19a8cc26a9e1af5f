-- ===== src/Lib.antt =====
-- A model of the course repository cs426: the queues, the semaphore, the channel merging and the
-- parallel fetcher of lab0; of lab1 the video recommendation service with the two services that it
-- calls, their failure injector, its ranker and the bcrypt that the ranker hashes with; and of lab3
-- what stands around Raft: the simulated network, the persister and the test harness.
--
-- Parts, and how they interact:
--   - Queue (lab0/queue.go): `Queue` is the struct of that name, a circular buffer that doubles when
--     it is full; `new_queue`, `push` and `pop` are NewQueue, Push and Pop. A store, an index or a
--     slice out of range is `none`. Queue/Valid has the invariant, Queue/Copy and Queue/Grow the
--     buffer that Push moves to, Queue/Fifo the two operations, Queue/Run sequences of calls against
--     a list, Queue/Shared `ConcurrentQueue`: in Queue/Shared/Moves a call is five moves of its
--     goroutine, which reads the fields and writes them in moves of their own, and `Reach` are the
--     states that any interleaving reaches.
--   - Semaphore (lab0/semaphore.go): waiters that poll an atomic counter. A schedule is a list of
--     events, each one atomic step of a goroutine: Semaphore/Conserved is about every schedule,
--     Semaphore/Alone about one waiter while the others pause.
--   - Merge (lab0/merge_channels.go): MergeChannels as a program counter that senders, a receiver and
--     the choice of a ready `select` case move; Merge/Cancel is MergeChannelsOrCancel and
--     Merge/Fetches MergeFetches with its wait group.
--   - Fetcher (lab0/parallel_fetcher.go): any number of goroutines in ParallelFetcher's Fetch.
--   - Injector (lab1/failure_injection/failure_injection.go): the injector at the start of each
--     handler. How `MaybeInject` ends is a value: it returns, blocks for ever or panics.
--   - Users and Videos (lab1/user_service and lab1/video_service, server_lib and mock_client): the
--     two backend services. Each handler asks the injector, checks the request and collects the
--     records (Lookup, whose loop the two handlers share); Dedup is `deduplicateIds`, which the video
--     service and the recommendation service both declare.
--   - Recommender (lab1/video_rec_service/server_lib/server_lib.go): GetTopVideos as a function of
--     the server's state. Recommender/Monad has the ways in which a handler ends,
--     Recommender/Connect how the server is made, Recommender/State the server, its client pools
--     and retries, Recommender/Batches the two loops that query batch by batch with the fallback
--     to the cache, Recommender/Ranks and Recommender/Sort the order of the videos (with
--     Recommender/Ranks/Descending what that order is, apart from the comparison),
--     Recommender/Handler the whole handler, GetStats and the cache's refresh. It calls its
--     clients, clock, ranker and sort through the interface `Backend`.
--   - Ranker (lab1/ranker/ranker.go): the dot product of a user's and a video's coefficients, hashed
--     by bcrypt and FNV-1.
--   - Bcrypt (lab1/det_bcrypt/det_bcrypt.go): hashing with a fixed salt. Bcrypt/Base64 has the
--     encoding, Bcrypt/Layout the printed form and the functions that callers use.
--   - Rpc (lab3/labrpc/labrpc.go): Rpc/Network has the tables of `Network` and the operations on them,
--     Rpc/Request is processReq for one request, which is given the network at each of its looks and
--     what its loop receives, and Rpc/Server finds a request's service and method by name.
--   - Persister (lab3/raft/persister.go): all persisters over one heap of arrays, so that two slices
--     can share an array; Persister/Apart/Values is its view as a store of values.
--   - Gob (lab3/labgob/labgob.go): checkType on a table of types, which may refer to themselves.
--   - Harness (lab3/raft/config.go): Harness/Logs are checkLogs, applier and nCommitted,
--     Harness/Leaders checkOneLeader, checkTerms and checkNoLeader, and Harness/Wires start1, crash1,
--     connect, disconnect and make_config on the tables of Rpc/Network. Harness/Wires/Current has
--     their invariant, and Harness/Wires/Stale joins it to Rpc/Request. Harness/Saves has what crash1
--     and start1 do with the persisters.
--   - Grpc: statuses and results of calls. Base: shared names, tests, lists and integers.
--
-- Numbers: 64-bit counters, the sums of the ranker, its hashes and the expiration time keep their
-- wrap-around, as a remainder by 2^64; Go's int is a number or, where a test of the source looks at
-- the sign, an integer, without the bounds of 64 bits.
--
-- Fuel: the loops of GetTopVideos over batches run on one more than the length of their list, which
-- is enough when the batch size is not zero: then each round takes at least one id. With a batch
-- size of zero the loops of the source do not end, and those of the model say `unfinished`. The
-- digits of a number n run on n + 1. checkType runs on more than the number of types that it has not
-- checked. All else is structural; the loop of processReq is a list of what its `select` receives.
--
-- Parameters: math/rand (`Rand`: Int63n is below its bound), golang.org/x/crypto/blowfish
-- (`Blowfish`: a block of eight bytes is encrypted to eight) with the decoding of base64,
-- slices.SortFunc (`SortFunc`: for a strict weak order a sorted permutation), the clients, the
-- clock, the memory of video records and the ranker as the recommendation service sees it
-- (`Backend`), the random databases of the two services, golang.org/x/sync's weighted semaphore
-- (`Weighted`: it acquires below its size and releases what is held), and for lab3 the random names
-- and rolls, what GetState returns, what reflection knows of types, and a method with its encoding.
--
-- Not modelled: sleeping (the time that it takes counts to the call after it), logging, the texts
-- of errors beyond what tells them apart, the programs under cmd and server, generated code, and
-- interleavings of several requests to one recommendation service: a request runs from its entry
-- to its return.
-- Of lab3: delays and the two-minute limit, ClientEnd.Call and the reflection of MakeService,
-- checkDefault, the harness's wait, one, begin and end, and the handlers of Raft, which are stubs.
pub mod Base
pub mod Queue
pub mod Grpc
pub mod Injector
pub mod Dedup
pub mod Lookup
pub mod Users
pub mod Videos
pub mod Recommender
pub mod Bcrypt
pub mod Ranker
pub mod Semaphore
pub mod Merge
pub mod Fetcher
pub mod Rpc
pub mod Persister
pub mod Gob
pub mod Harness
