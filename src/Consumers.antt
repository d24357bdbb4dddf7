-- ===== src/Consumers.antt =====
-- The handle of one key in storage/consumer.go: its lease, its commits and its end. Locks, contexts
-- and clocks are arguments.
pub mod Lease
pub mod Commits
use immulog.Prelude.{ℕ, Bool, List, Option}
use immulog.Prelude.Arrays.{Array}
use immulog.Events.Fields.{TopicKey}

-- `Consumer`, with the number that stands for its address. A zero deadline is `none`.
pub record Consumer : Type 0 where
  pub handle : ℕ
  pub group_id : List ℕ
  pub key : TopicKey
  pub session : Array 16
  pub generation : ℕ
  pub progress_timeout : ℕ
  pub next : ℕ
  pub delivered : ℕ
  pub deadline : Option ℕ
  pub operation_active : Bool
  pub expired : Bool
  pub closed : Bool
