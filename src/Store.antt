-- ===== src/Store.antt =====
-- The part of `Store` of storage/store.go that a consumer's handle works on, the capacity of the
-- system logs in storage/capacity.go, and the append of an offsets event in storage/consumer.go.
pub mod Capacity
pub mod Events
use immulog.Prelude.{ℕ, Bool, List}
use immulog.Events.Fields.{TopicKey}
use immulog.Events.Payloads.{StoreId}
use immulog.Catalog.{CatalogProjection}
use immulog.Offsets.{OffsetsProjection}
use immulog.Partition.{Partition}

-- The key of `consumers` has a group's name and a topic partition, as `consumerMapKey` joins them.
-- A handle in it stands for its address, a number.
pub record Store : Type 0 where
  pub store_id : StoreId
  pub closed : Bool
  pub closing : Bool
  pub offsets_unavailable : Bool
  pub catalog_state : CatalogProjection
  pub offsets_state : OffsetsProjection
  pub offsets : Partition
  pub partitions : List (TopicKey × Partition)
  pub consumers : List ((List ℕ × TopicKey) × ℕ)
  pub expired_groups : List (List ℕ × Bool)
  pub max_offsets_history_bytes : ℕ
