-- ===== src/Catalog.antt =====
-- storage/catalog.go and storage/retention_event.go: the catalog of topics that a replay of the
-- metadata log builds. A projection keeps a topic behind two maps of pointers; the map by name
-- holds the identifier under which the map by identifier has the topic.
pub mod RetentionEvent
pub mod Apply
pub mod Covers
pub mod Cases
pub mod Advance
pub mod Progress
pub mod Replay
use immulog.Prelude.{ℕ, List, [], ◌==◌, ==_of_eq, ==→eq, refl}
use immulog.Prelude.Arrays.{Array, array_eq, array_eq_refl, array_eq→eq, zeros}
use immulog.Prelude.Maps.{Eq}
use immulog.Api.{TopicId, SegmentId}
use immulog.Format.LittleEndian.{bytes_eq, bytes_eq_refl, bytes_eq→eq}
use immulog.Config.{PartitionConfig}
use immulog.Events.Fields.{EventAnchor}
use immulog.Events.Payloads.{StoreId, StoreInitializedEvent}

instance abbrev pub id_eq : Eq (Array 16)
id_eq = record { beq = array_eq 16; refl_lem = array_eq_refl 16; beq→eq = array_eq→eq 16 }

instance abbrev pub string_eq : Eq (List ℕ)
string_eq = record { beq = bytes_eq; refl_lem = bytes_eq_refl; beq→eq = bytes_eq→eq }

instance abbrev pub number_eq : Eq ℕ
number_eq = record { beq = ◌==◌; refl_lem = λ a. ==_of_eq a a refl; beq→eq = ==→eq }

-- `TopicPartition`
pub record TopicPartition : Type 0 where
  pub partition : ℕ
  pub config : PartitionConfig
  pub initial_segment : SegmentId
  pub initial_header_hash : Array 32
  pub retained_l : ℕ
  pub current_retained_segment : SegmentId
  pub current_retained_header_hash : Array 32
  pub boundary_catalog_next : ℕ
  pub maximum_recorded_retirement_h : ℕ

-- `TopicDescriptor`
pub record TopicDescriptor : Type 0 where
  pub id : TopicId
  pub name : List ℕ
  pub partitions : List TopicPartition

-- `retiredSegmentEvent`
pub record RetiredSegmentEvent : Type 0 where
  pub base : ℕ
  pub end : ℕ
  pub bytes : ℕ
  pub anchor : EventAnchor

-- `catalogTopic`
pub record CatalogTopic : Type 0 where
  pub descriptor : TopicDescriptor
  pub retired : List (ℕ × List (ℕ × RetiredSegmentEvent))
  pub creation_offset : ℕ

-- `catalogProjection`
pub record CatalogProjection : Type 0 where
  pub store_id : StoreId
  pub initialized : StoreInitializedEvent
  pub config : PartitionConfig
  pub offsets_config : PartitionConfig
  pub revision : ℕ
  pub topics_by_name : List (List ℕ × TopicId)
  pub topics_by_id : List (TopicId × CatalogTopic)
