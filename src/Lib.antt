-- ===== src/Lib.antt =====
-- retrosampler is a processor of the OpenTelemetry Collector that keeps whole traces on disk for a while
-- and forwards those that a verdict asks for. A batch of spans is cut into one fragment for each trace
-- (internal/fragmenter), the chain of conditions gives verdicts on its spans (internal/detect), a shard's
-- worker writes the fragments to segment files (internal/buffer) and, on a verdict, reads a trace back and
-- hands it to the flusher, or parks what is owed until the next tick (internal/shards).
--
-- Files:
--   Prelude                  names of the libraries, Boolean tests, lists, little-endian bytes, int64.
--   Buffer/Record            internal/buffer/record.go: lenU32, putRecordHeader, parseRecordHeader.
--   Buffer/Segment/Writer    internal/buffer/segment.go: segmentWriter, append, flush, finalize. A
--                            computation returns an Option and the writer; every write may fail after any
--                            number of bytes, as its script says, and an error of bufio.Writer is sticky.
--   Buffer/Segment/Reader    readFooter and scanRecords over the bytes of a file.
--   Buffer/Segment/*         records as lists, what a prefix of them holds, the trailer and the footer.
--   Buffer/Index/Defs, Reclaim
--                            internal/buffer/index.go: the table of traces, the arena of locs, the free list;
--                            put, grow and head, and sweep with compact.
--   Buffer/Index/Links, Invariant, Alloc, Linked, Append, Rehash, Put, Sweep, Swept, Copy, Packed,
--   Buffer/Index/Compact, Sweeps
--                            chains of locs, when an index is well formed, and what each operation keeps.
--   Buffer/Index/Runs        the index against a list of fragments for each trace.
--   Buffer/Store/Defs        internal/buffer/buffer.go: Append, roll, Expire and ExpireOldest, over the segment's
--                            writer and the index; the answers of the system come from a script.
--   Buffer/Store/Collect     Collect and readerFor.
--   Buffer/Store/Ascending, Expiry, Rolls, Kept, Stored, Visits
--                            the finalized segments, what roll and Expire keep, what Append adds, and what
--                            Collect visits.
--   Buffer/Store/Open        Open, the recovery of a directory, and Close.
--   Buffer/Store/Gens, Replay, Recovered, Reopened, Opened, Crash
--                            what recover puts into the index, what its loop keeps, and what a restart finds.
--   Fragmenter/Proto, Value, Span, Group
--                            internal/fragmenter/protoenc.go and spanenc.go: each size and put function;
--                            put functions take the bytes written so far and return them with theirs.
--   Fragmenter/Sizes, Runs, Varint
--                            sizes against bytes written, the runs of refs, varints.
--   Fragmenter/Batch/Defs    internal/fragmenter/fragmenter.go: Fragment, its arena of refs and its groups.
--   Fragmenter/Batch/Chains, Groups, Grouped, NewGroup, Steps, Picked, Fragments
--                            the chain of a trace, what the loops keep, and the fragments that come out.
--   Detect/Millis            internal/detect/baggage.go: readMillis.
--   Detect/Policies          internal/detect/ottl.go: compilePolicies and the policies' evaluation.
--   Detect/Chain             internal/detect/detect.go: the Detector, Eval, Baseline.
--   Detect/Build             Build and the accessors of a Detector.
--   Detect/Counters, Order, Compiles
--                            the counters and the verdict of Eval, policies that compile, Enabled.
--   Shards/Route             internal/shards/shards.go: shardFor.
--   Shards/Assoc             a Go map as an association list.
--   Shards/Pending/Defs      internal/shards/worker.go and flush.go: park, sweepPending, collectOnce,
--                            drainPending, compactPendq.
--   Shards/Pending/Queue, Drain, Compact, Served, Deadlines
--                            the queue of parked intents and their deadlines.
--   Probing                  the linear search of an open-addressing table: full slots, vacant slots and
--                            tombstones, and the slots that a search comes to; what writes to slots keep.
--   Shards/Decided/Defs      internal/shards/decided.go: decidedSet, findSlot, mark, has, evict, rehash.
--   Shards/Decided/Table, Insert, Bury, Live, Rehash, Compact
--                            when a table holds the live entries, and what each operation does to it.
--   Shards/Decided/Refine, Runs
--                            the set against a plain list of entries.
--   Shards/Options           internal/shards/shards.go: the checks of New, and the buffers that it opens.
--   Shards/Reports           internal/shards/shards.go: the tick's default, EffectiveWindow, PendingFlushes.
--   Shards/Queues/Defs       internal/shards/shards.go and worker.go: fragBuf, the work queue and the free
--                            ring of a shard (Lane), what each call writes into a buffer.
--   Shards/Queues/Steps      Offer, enqueueKeep, Retry, run, drain and Shutdown as steps. The abort channel of
--                            a call may close at any time; a tick shows only as the cause that it sets.
--   Shards/Queues/Lanes, Invariant, Moves, Safety, Drain
--                            what every step keeps, and what follows once a worker has returned.
--   Shards/Worker/Defs, Tick internal/shards/worker.go: handle, clampAt, appendFragment, keep, tick and
--                            reportDisk, over an interface for the buffer (Disk).
--   Shards/Worker/Sound, Floor, Once
--                            runs of events and ticks, the loop on the watermark, the counters of keeps.
--   Shards/Worker/OverBuffer, Taken, Ticked
--                            the model of internal/buffer as the worker's buffer, and what a tick removes from it.
--   Bus/Wire                 internal/bus/natsbus/wire.go: encodeKeep, decodeKeep.
--   Settings/Validate        config.go: Config, Validate and withDefaults.
--   Settings/Usable          what Validate accepts, as conditions on each field.
--   Tests                    concrete runs.
--
-- Parameters: the checksum of internal/buffer (crc32 over the Castagnoli table), of which only its being a
-- uint32 is used; the parser of OTTL conditions; a condition, which answers a Boolean or an error; the
-- comparisons of the baseline's rate with 0 and 1 and its product with 2 ^ 56; for parked intents, what Collect
-- gives and which sends on the flush channel find room; detect and baseline, as functions of a span and of an id;
-- for the worker's events and ticks, the buffer's operations; what the other workers add to the total of
-- bytes on disk before each load of it; for New, whether a buffer opens; for sweep of the index, the capacity
-- that the runtime gave the arena; for the buffer, what the system answers, the file that a new segment is
-- written to, the bytes that a read of a segment gives, and what the files of a directory have when Open reads them.
--
-- Loops: uvarint and sizeUvarint run on fuel, the number itself, which a division by 128 brings down at
-- each turn; scanRecords runs on the number of bytes in the file, of which each record takes at least 24;
-- drainPending takes one turn for each id that the queue held at entry; rehash doubles the size of its table
-- at most four times for each live entry, and evict takes one turn for each live entry; tick takes at most
-- one turn for each finalized segment, and one more; Fragment walks a chain on the number of refs. In the
-- index, a chain of locs is walked on the length of the arena, which no chain exceeds, and grow doubles the
-- size of its table at most four times for each trace; deleteExpired takes one turn for each finalized
-- segment, and one more.
--
-- Numbers: int64 wraps in +ℤ and -ℤ, counters are taken modulo 2 ^ 64, and lenU32 gives 0 out of range. A
-- length is below 2 ^ 63, as in Go, so sums of lengths are not wrapped.
--
-- Not modelled: the in-process and the NATS bus, the processor and the flusher, which pass values between the
-- parts above and types of third parties; test support and benchmarks; and what is generated, telemetry or glue.
-- Of the buffer, a read that fails within recover, and the handles that a failed Open leaves open; as the worker's
-- buffer, the state of its handles after Collect.
pub mod Prelude
pub mod Probing
pub mod Buffer
pub mod Fragmenter
pub mod Detect
pub mod Shards
pub mod Bus
pub mod Settings
pub mod Tests
