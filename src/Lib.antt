-- ===== src/Lib.antt =====
-- Verification of immulog, an embedded, append-only, partitioned event log.
--
-- A store keeps, for each partition of a topic, a directory of segment files. A segment is a header
-- and a sequence of batches; a batch is a header, records and a checksum. An append encodes a batch,
-- writes it at the end of the active segment and synchronizes it; when the segment is full, it is
-- sealed and a new one takes the batch. On opening, the files are discovered by name, each one is
-- scanned, and a batch that a crash has cut off at the end of the last one is truncated. A
-- retention pass retires the oldest segments. Two system logs carry events, in records of the same
-- form, and each has a projection in memory: the catalog of topics, and the positions of consumer
-- groups. A commit of a consumer appends an event and moves the projection. A fetch reads a bounded
-- run of records at an offset; sealed segments are read through a bounded cache of descriptors.
--
-- Prelude    shared notation: Boolean tests, lists, fixed-size arrays, int64 and uint64
-- Api        api/types.go and api/errors.go: identifiers, records, batches, errors
-- Format     storage/format.go: constants, byte order, CRC-32C, UTF-8, the segment header
--            (EncodeSegmentHeader, DecodeSegmentHeader)
-- Codec      storage/codec.go: EncodeRecord, DecodeRecord, EncodeBatch, DecodeBatch
-- SegmentFiles  storage/segment_files.go: segmentFileCache with acquire, release, forget, closeAll
-- Events     storage/events.go and storage/events_validation.go: eventCursor, anchors, the envelope
--            of system events, StoreInitialized and TopicCreated
-- Config     storage/config.go: PartitionConfigV1, its validation and its 64 bytes
-- Catalog    storage/catalog.go and storage/retention_event.go: catalogProjection with apply and
--            replay, and the event PartitionLogStartAdvanced
-- Offsets    storage/offsets_projection.go: offsetsProjection with apply and its three handlers,
--            replayOffsetsHistory; the bodies that storage/consumer.go encodes
-- Retention  storage/retention.go: planRetentionLocked and the functions it calls
-- Partition  storage/partition.go, storage/append_encoded.go and the sizes of storage/writer.go:
--            discoverSegments, recoverSegment, canTruncateTail, openPartition, createSegment,
--            appendEncodedLocked, AppendBatch
-- Store      storage/capacity.go, the part of storage/store.go's Store that a handle works on, and
--            appendOffsetsEventLocked of storage/consumer.go
-- Consumers  storage/consumer.go: Consumer with activePartitionLocked and Commit
-- Tail       storage/tail.go: tailBudget, newDeliveredBatch, validDeliveredBatch, partitionTail with
--            offer, evictionPlan, evict, clear, close and fetch
-- Fetch      storage/fetch.go: Partition.Fetch, scanSegmentForFetch, Reader
-- Tests      sample data, test vectors and the theorems at concrete inputs
--
-- Bytes are natural numbers, which the encoders keep below 256; a file is the list of its bytes. A
-- sum of uint32 or uint64 values that may wrap is written with its modulus. An int64 is an integer
-- with a range. An error is the list of the sentinels that are joined in it, with a text. A mutex
-- makes each operation one step, so an operation is a function of its state, and what the file
-- system answers is an argument of it: which handle is opened, which identifier a new segment gets,
-- how many bytes are written, whether a write or a synchronization fails.
--
-- The loops that recurse on fuel are the scan of a segment, with one more unit than there are bytes,
-- of which each round takes at least 52, the eviction, with one unit for each entry, of which each
-- round removes one, and the fetch from a segment, with one more unit than its bytes, of which each
-- round takes at least 52. Every other loop is structural.
--
-- Not modelled: the files of derived indexes, statistics, the queue in front of the writer,
-- disk-space reservation, the creation of topics, consumers but for the lease and the commits of a
-- handle of one key, snapshots and compaction, the life cycle of the store, and the file system
-- itself. The recovery of a segment takes the bytes of its file, and the replay of a system log the
-- records that the log returns from offset 0 on: what fails of these reads is left out.
pub mod Prelude
pub mod Api
pub mod Format
pub mod Codec
pub mod SegmentFiles
pub mod Tail
pub mod Events
pub mod Config
pub mod Catalog
pub mod Offsets
pub mod Retention
pub mod Partition
pub mod Store
pub mod Consumers
pub mod Fetch
pub mod Tests
