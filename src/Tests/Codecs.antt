-- ===== src/Tests/Codecs.antt =====
-- The codecs at the sample record, batch and header.
use immulog.Prelude.{◌≡◌, length, arith}
use immulog.Api.Errors.{ok}
use immulog.Format.Segment.{encode_segment_header, decode_segment_header}
use immulog.Format.Segment.RoundTrip.{decode-encode_segment_header}
use immulog.Format.Segment.Sound.{decode_segment_header_valid, IsDecoded as IsDecodedHeader}
use immulog.Codec.Record.{decode_record}
use immulog.Codec.RecordTrip.{decode-encode_record}
use immulog.Codec.Batch.{decode_batch}
use immulog.Codec.BatchTrip.{decode-encode_batch}
use immulog.Codec.Sound.{decode_batch_valid, IsDecoded}
use immulog.Partition.Sizes.{record_encoded_bytes}
use immulog.Partition.Sizes.Exact.{record_encoded_bytes-length}
use immulog.Tests.Samples.{
  topic, first_record, first_batch, first_header, value_of, record_bytes, batch_bytes,
  encoded_header, encoded_first_record, encoded_first_batch, timed,
}

decode-encode_record_example : decode_record record_bytes 0 topic 0 ≡ ok first_record
decode-encode_record_example =
    decode-encode_record first_record 0 encoded_first_record (omega arith)

decode-encode_batch_example : decode_batch batch_bytes topic 0 ≡ ok first_batch
decode-encode_batch_example = decode-encode_batch first_batch encoded_first_batch timed

decode_batch_valid_example : IsDecoded batch_bytes topic 0 first_batch
decode_batch_valid_example =
    decode_batch_valid batch_bytes topic 0
      (decode-encode_batch first_batch encoded_first_batch timed)

decode-encode_segment_header_example :
    decode_segment_header (value_of (encode_segment_header first_header)) topic 0 ≡ ok first_header
decode-encode_segment_header_example = decode-encode_segment_header first_header encoded_header

decode_segment_header_valid_example :
    IsDecodedHeader (value_of (encode_segment_header first_header)) topic 0 first_header
decode_segment_header_valid_example =
    decode_segment_header_valid (value_of (encode_segment_header first_header)) topic 0 first_header
      (decode-encode_segment_header first_header encoded_header)

record_encoded_bytes-length_example : record_encoded_bytes first_record ≡ ok (length record_bytes)
record_encoded_bytes-length_example =
    record_encoded_bytes-length first_record 0 encoded_first_record
