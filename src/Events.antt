-- ===== src/Events.antt =====
-- storage/events.go: the events of the two system logs, their envelope and their payloads.
pub mod Cursor
pub mod Fields
pub mod Envelope
pub mod Payloads
pub mod TopicNames
pub mod Trip
pub mod TopicTrip
