-- ===== src/Tests/Handles.antt =====
-- A handle of the sample group, which commits.
use immulog.Prelude.{
  ℕ, ◌+◌, ◌^◌, ◌≤◌, ◌<◌, ◌≡◌, refl, Bool, true, false, Option, none, some, List, [], ◌∷◌, length,
  arith,
}
use immulog.Prelude.Arrays.{array_eq, zeros}
use immulog.Prelude.Int.{min_int64}
use immulog.Api.{consumer_offsets_topic_id}
use immulog.Api.Errors.{ok}
use immulog.Format.Segment.{SegmentHeader, encode_segment_header}
use immulog.Codec.Batch.{encode_batch}
use immulog.Events.Envelope.{event_offset_committed, encode_system_event}
use immulog.Offsets.Bodies.{encode_commit_body}
use immulog.Offsets.History.{replay_offsets_history-AreGroups}
use immulog.Partition.{Segment, Partition}
use immulog.Partition.Append.{Answers, create_segment}
use immulog.Partition.Open.{opened_partition, open_partition, open_files}
use immulog.Partition.Names.{discover_segments}
use immulog.Partition.Reopen.{open_partition-empty}
use immulog.Store.{Store}
use immulog.Store.Capacity.{event_batch}
use immulog.Consumers.{Consumer}
use immulog.Consumers.Commits.{Waiting, commit}
use immulog.Consumers.Commits.Owner.{IsOpened}
use immulog.Consumers.Commits.Committed.{CommitOutcome, outcome_of, commit-CommitOutcome}
use immulog.Tests.Samples.{segment_id, limits, first_partition, value_of}
use immulog.Tests.Catalogs.{catalog}
use immulog.Tests.Groups.{
  store, key, group_id, session, assignment_log, assigned, progress, replayed,
}

abbrev offsets_header : SegmentHeader
offsets_header = record {
  topic = consumer_offsets_topic_id;
  partition = 0;
  base_offset = 0;
  id = segment_id;
}

abbrev offsets_segment : Segment
offsets_segment = record {
  header = offsets_header;
  end = 0;
  size = 72;
  records = 0;
  max_time = min_int64;
  batches = [];
  content = value_of (encode_segment_header offsets_header);
}

abbrev offsets_partition : Partition
offsets_partition = opened_partition consumer_offsets_topic_id 0 limits [] offsets_segment

encoded_header :
    encode_segment_header offsets_header ≡ ok (value_of (encode_segment_header offsets_header))
unfolding encode_segment_header immulog.Api.is_zero immulog.Prelude.Arrays.array_eq
    immulog.Format.Checksum.crc32c immulog.Format.LittleEndian.slice
encoded_header = refl

opened :
    open_partition consumer_offsets_topic_id 0 limits 0 (some segment_id) [] ≡ ok offsets_partition
unfolding open_partition open_files discover_segments create_segment
    immulog.Partition.Open.sort_by_base
opened = rw encoded_header refl

abbrev user_partition : Partition
user_partition = record first_partition { log_end = 9 }

abbrev opened_store : Store
opened_store = record {
  store_id = store;
  closed = false;
  closing = false;
  offsets_unavailable = false;
  catalog_state = catalog;
  offsets_state = assigned;
  offsets = offsets_partition;
  partitions = (key, user_partition) ∷ [];
  consumers = ((group_id, key), 4) ∷ [];
  expired_groups = [];
  max_offsets_history_bytes = 4096;
}

abbrev consumer : Consumer
consumer = record {
  handle = 4;
  group_id = group_id;
  key = key;
  session = session;
  generation = 1;
  progress_timeout = 30;
  next = 8;
  delivered = 8;
  deadline = some 100;
  operation_active = false;
  expired = false;
  closed = false;
}

abbrev event_bytes : List ℕ
event_bytes = value_of (
    encode_batch (
      event_batch consumer_offsets_topic_id 0 (
        value_of (
          encode_system_event event_offset_committed
            (value_of (encode_commit_body store 3 group_id session 1 key progress 7))))))

abbrev answers : Answers
answers = record {
  created = none;
  written = length event_bytes;
  write_failed = false;
  synced = true;
}

abbrev waiting : Waiting
waiting = record {
  cancelled = none;
  contended = false;
  abandoned = none;
  now = 50;
  started_before = false;
  finished = 51;
}

store_is_set : array_eq 16 store (zeros 16) ≡ false
unfolding array_eq
store_is_set = refl

consumer-IsOpened : IsOpened 0 opened_store consumer
consumer-IsOpened = record {
  log =
      (open_partition-empty consumer_offsets_topic_id 0 limits 0 (some segment_id) offsets_partition
        opened).0;
  groups =
      (replay_offsets_history-AreGroups store catalog assignment_log assigned (omega arith)
        replayed.0).0;
  store = replayed.5;
  partition = replayed.2.partition;
  known = replayed.2.known;
  store_id = store_is_set;
  session_id = replayed.2.session_id;
  topic_id = replayed.2.topic_id;
  index = replayed.2.index;
  started = replayed.2.started;
  revision = replayed.2.revision;
  generation = omega arith;
}

commit-CommitOutcome_example :
    CommitOutcome opened_store consumer 7
      (outcome_of (commit opened_store consumer waiting 7 answers))
commit-CommitOutcome_example =
    commit-CommitOutcome 0 opened_store consumer waiting 7 answers consumer-IsOpened (omega arith)
