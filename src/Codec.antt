-- ===== src/Codec.antt =====
-- storage/codec.go: records and batches as bytes. A cursor is the bytes that it has not read yet.
pub mod Cursor
pub mod Record
pub mod Batch
pub mod RecordTrip
pub mod BatchTrip
pub mod Sound
