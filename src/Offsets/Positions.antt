-- ===== src/Offsets/Positions.antt =====
-- What one event of the offsets log may do to the groups.
use immulog.Prelude.{ℕ, ◌+◌, ◌^◌, ◌%◌, ◌≡◌, refl, false, Option, none, some, List, []}
use immulog.Prelude.Maps.{lookup, insert, is_some}
use immulog.Events.Fields.{TopicKey}
use immulog.Catalog.{id_eq, string_eq}
use immulog.Offsets.{OffsetGroup, OffsetsProjection}
use immulog.Offsets.Keys.{key_eq}
use immulog.Offsets.Invariant.{IsGroup}
use immulog.Offsets.Groups.{Moves}

-- Every group is one that the events of a log can build.
abbrev pub AreGroups : OffsetsProjection → Type 0
AreGroups p = (id : List ℕ) (g : OffsetGroup) → lookup id p.groups ≡ some g → IsGroup g

-- A group behind an event: it has the start policy that it was created with, and its positions have
-- moved on from where they were.
pub record IsLaterGroup (g g' : OffsetGroup) : Type 0 where
  pub mode : g'.creation_start_mode ≡ g.creation_start_mode
  pub starts : g'.explicit_starts ≡ g.explicit_starts
  pub moves : Moves g.progress g'.progress

-- What an event that is accepted does: a group that was not there appears with no position, or one
-- group is replaced by a later form, and every other one stays as it is.
pub record IsStep (p : OffsetsProjection) (offset : ℕ) (p' : OffsetsProjection) : Type 0 where
  pub id : List ℕ
  pub group : OffsetGroup
  pub behind : p' ≡ record p { groups = insert id group p.groups; revision = (offset + 1) % 2 ^ 64 }
  pub valid : AreGroups p → IsGroup group
  pub later : AreGroups p → (g : OffsetGroup) → lookup id p.groups ≡ some g → IsLaterGroup g group

pub absent {ℓ} : {V : Type ℓ} (o : Option V) → is_some o ≡ false → o ≡ none
absent none h = refl
absent (some v) h = cc

pub no_position {ℓ} : {V : Type ℓ} (key : TopicKey) (v : V) → lookup key [] ≡ some v → ⊥
unfolding lookup
no_position key v e = cc
