-- ===== src/Offsets/History.antt =====
-- What a replay of the offsets log keeps.
use immulog.Prelude.{
  ℕ, ◌+◌, ◌^◌, ◌%◌, ◌<◌, ◌≡◌, ◌∙◌, refl, sym, subst, ap, some, List, [], ◌∷◌, length, ◌!=◌,
  !=-false→eq, arith, Bool-cases, inl, inr,
}
use immulog.Prelude.Maps.{lookup, insert, lookup-insert_self, lookup-insert_ne, lookup-insert_cases}
use immulog.Api.{Record}
use immulog.Api.Errors.{ok, reject_if-eq-ok, >>=-eq-ok, ok-injective}
use immulog.Format.LittleEndian.{bytes_eq, bytes_eq→eq}
use immulog.Events.Payloads.{StoreId}
use immulog.Catalog.{string_eq, CatalogProjection}
use immulog.Offsets.{OffsetGroup, OffsetsProjection}
use immulog.Offsets.Keys.{key_eq}
use immulog.Offsets.Replay.{
  apply, new_offsets_projection, replay_offset_records, replay_offsets_history,
}
use immulog.Offsets.Invariant.{IsGroup}
use immulog.Offsets.Groups.{IsLater-refl, IsLater-trans, Moves}
use immulog.Offsets.Positions.{AreGroups, IsLaterGroup, IsStep}
use immulog.Offsets.Steps.{apply-IsStep}

-- Every group of the one projection has its later form in the other.
abbrev pub IsOnward : OffsetsProjection → OffsetsProjection → Type 0
IsOnward p p' =
    (id : List ℕ) (g : OffsetGroup)
    → lookup id p.groups ≡ some g
    → (g' : OffsetGroup) × (lookup id p'.groups ≡ some g') × IsLaterGroup g g'

IsLaterGroup-refl : (g : OffsetGroup) → IsLaterGroup g g
IsLaterGroup-refl g = record {
  mode = refl;
  starts = refl;
  moves = λ key p there. (p, there, IsLater-refl p);
}

Moves-trans :
    (g h k : OffsetGroup)
    → Moves g.progress h.progress
    → Moves h.progress k.progress
    → Moves g.progress k.progress
Moves-trans g h k a b key p there =
    let (q, at_q, later) = a key p there in
    let (r, at_r, later') = b key q at_q in (r, at_r, IsLater-trans p q r later later')

IsLaterGroup-trans : (g h k : OffsetGroup) → IsLaterGroup g h → IsLaterGroup h k → IsLaterGroup g k
IsLaterGroup-trans g h k a b = record {
  mode = b.mode ∙ a.mode;
  starts = b.starts ∙ a.starts;
  moves = Moves-trans g h k a.moves b.moves;
}

IsStep-AreGroups :
    (p p' : OffsetsProjection) (offset : ℕ) → AreGroups p → IsStep p offset p' → AreGroups p'
IsStep-AreGroups p p' offset v k id g there =
    let there' = subst (λ (q : OffsetsProjection). lookup id q.groups ≡ some g) k.behind there in
    elim (lookup-insert_cases k.id id k.group g p.groups there') [
      | inl (e, same) ↦ subst IsGroup same (k.valid v)
      | inr (apart, old) ↦ v id g old
    ]

IsStep-IsOnward :
    (p p' : OffsetsProjection) (offset : ℕ) → AreGroups p → IsStep p offset p' → IsOnward p p'
IsStep-IsOnward p p' offset v k id g there = elim (Bool-cases (bytes_eq k.id id)) [
  | inl same ↦
      let e = bytes_eq→eq k.id id same in
      (
        k.group,
        subst (λ (q : OffsetsProjection). lookup id q.groups ≡ some k.group) (sym k.behind)
            (subst (λ (i : List ℕ). lookup i (insert k.id k.group p.groups) ≡ some k.group) e
              (lookup-insert_self k.id k.group p.groups)),
        k.later v g (subst (λ (i : List ℕ). lookup i p.groups ≡ some g) (sym e) there),
      )
  | inr other ↦ (
    g,
    subst (λ (q : OffsetsProjection). lookup id q.groups ≡ some g) (sym k.behind)
        (lookup-insert_ne k.id id k.group p.groups other ∙ there),
    IsLaterGroup-refl g,
  )
]

-- Whatever events a projection accepts one after another, every group that it had is still there
-- with its start policy, every key with a position keeps the offset it started from, and no key's
-- next offset goes back, where the groups held to begin with what the events of a log establish.
pub replay_offset_records-IsOnward :
    (p p' : OffsetsProjection) (c : CatalogProjection) (offset : ℕ) (rs : List Record)
    → AreGroups p
    → replay_offset_records p c offset rs ≡ ok p'
    → IsOnward p p'
unfolding replay_offset_records
replay_offset_records-IsOnward p p' c offset [] v h id g there =
    subst (IsOnward p) (ok-injective h) (λ id g there. (g, there, IsLaterGroup-refl g)) id g there
replay_offset_records-IsOnward p p' c offset (r ∷ rs) v h id g there =
    let (t, h1) = reject_if-eq-ok (r.offset != offset) _ _ h in
    let (q, applied, h2) = >>=-eq-ok (apply p r c) _ h1 in
    let step = apply-IsStep p q r c applied in
    let (g1, there1, later1) = IsStep-IsOnward p q r.offset v step id g there in
    let (g2, there2, later2) =
      replay_offset_records-IsOnward q p' c ((offset + 1) % 2 ^ 64) rs
        (IsStep-AreGroups p q r.offset v step) h2 id g1 there1 in
    (g2, there2, IsLaterGroup-trans g g1 g2 later1 later2)

replay_offset_records-AreGroups :
    (p p' : OffsetsProjection) (c : CatalogProjection) (offset : ℕ) (rs : List Record)
    → AreGroups p
    → p.revision ≡ offset
    → offset + length rs < 2 ^ 64
    → replay_offset_records p c offset rs ≡ ok p'
    → AreGroups p' × (p'.revision ≡ offset + length rs)
unfolding replay_offset_records
replay_offset_records-AreGroups p p' c offset [] v e small h =
    subst (λ (q : OffsetsProjection). AreGroups q × (q.revision ≡ offset + 0)) (ok-injective h)
      (v, omega (arith, e))
replay_offset_records-AreGroups p p' c offset (r ∷ rs) v e small h =
    let (t, h1) = reject_if-eq-ok (r.offset != offset) _ _ h in
    let (q, applied, h2) = >>=-eq-ok (apply p r c) _ h1 in
    let step = apply-IsStep p q r c applied in
    let same = !=-false→eq r.offset offset t in
    let rev = ap (λ (w : OffsetsProjection). w.revision) step.behind in
    let next : (offset + 1) % 2 ^ 64 ≡ offset + 1 = omega (arith, small) in
    let (v', rev') =
      replay_offset_records-AreGroups q p' c (offset + 1) rs (IsStep-AreGroups p q r.offset v step)
        (omega (arith, rev, same, small)) (omega (arith, small))
        (subst (λ (n : ℕ). replay_offset_records q c n rs ≡ ok p') next h2) in
    (v', omega (arith, rev'))

none_grouped : (id : List ℕ) (g : OffsetGroup) → lookup id [] ≡ some g → ⊥
unfolding lookup
none_grouped id g e = cc

-- Whatever the offsets log holds, as long as its offsets are 64-bit numbers: where its replay
-- succeeds, the projection has one revision for each record; in each group, no key's next offset
-- lies in front of the one it started from, and the owner of each assigned key is a member of the
-- current assignment and has a position for the key.
pub replay_offsets_history-AreGroups :
    (store : StoreId) (c : CatalogProjection) (records : List Record) (p : OffsetsProjection)
    → length records < 2 ^ 64
    → replay_offsets_history store c records ≡ ok p
    → AreGroups p × (p.revision ≡ length records)
unfolding replay_offsets_history
replay_offsets_history-AreGroups store c records p small h =
    let (v, rev) =
      replay_offset_records-AreGroups (new_offsets_projection store) p c 0 records
        (λ id g there. absurd (none_grouped id g there)) refl (omega (arith, small)) h in
    (v, omega (arith, rev))
