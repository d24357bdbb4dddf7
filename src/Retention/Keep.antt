-- ===== src/Retention/Keep.antt =====
-- A retention pass keeps the invariant of the partition and moves its start to the plan's offset.
use immulog.Prelude.{
  some-injective, ℕ, ◌+◌, ◌≡◌, ◌⊎◌, inl, inr, ◌∙◌, sym, refl, ap, subst, false, Option, some, List,
  [], ◌∷◌, ◌++◌, arith,
}
use immulog.Prelude.Int.{ℤ}
use immulog.Api.{SegmentId, TopicId}
use immulog.Api.Errors.{ok-injective, Result, ok, >>=-eq-ok}
use immulog.Config.{PartitionConfig}
use immulog.Partition.{Segment, Partition, segments}
use immulog.Partition.Append.{roll}
use immulog.Partition.Invariant.{IsChain, IsValid, create_segment-IsHeld}
use immulog.Partition.Appends.{roll-IsValid, roll-same}
use immulog.Retention.{Retirement, max_retired_segments, retire}
use immulog.Retention.Plan.{
  Proposal, oldest, last_end, reason_mask, proposal_of, plan_retired, plan_retention, retain,
}
use immulog.Retention.Loop.{
  total_bytes, total_bytes-append, AreEligible, IsRetirement, retire-IsRetirement,
  retained_segment_bytes-exact,
}
use immulog.Retention.Courses.{failed, fenced, overflow, planned, rolled, plan_retention-Course}

-- Whatever a plan comes to, the partition is valid and has the same end.
pub plan_retention-IsValid :
    (start : ℕ) (p : Partition) (c : PartitionConfig) (now : ℤ) (created : Option SegmentId)
    → IsValid start p
    → IsValid start (plan_retention p c now created).1
      × ((plan_retention p c now created).1.log_end ≡ p.log_end)
plan_retention-IsValid start p c now created v = elim (plan_retention-Course p c now created) [
  | failed e same ↦ rw same (v, refl)
  | fenced e same ↦ rw same (record { chain = v.chain; log_end_eq = v.log_end_eq }, refl)
  | planned total h same ↦ rw same (v, refl)
  | overflow e s id n g same ↦ rw same (
    roll-IsValid start p s v n (create_segment-IsHeld p.topic p.partition p.log_end id s g),
    (roll-same p s).0,
  )
  | rolled total s id h n g same ↦ rw same (
    roll-IsValid start p s v n (create_segment-IsHeld p.topic p.partition p.log_end id s g),
    (roll-same p s).0,
  )
]

-- What is left of a chain when its oldest segments are gone.
IsChain-rest :
    (topic : TopicId) (partition next : ℕ) (s : Segment) (xs ys : List Segment) (a : Segment)
    → IsChain topic partition next (s ∷ xs ++ ys) a
    → IsChain topic partition (last_end s xs) ys a
IsChain-rest topic partition next s [] ys a h = h.3
IsChain-rest topic partition next s (t ∷ xs) ys a h =
    IsChain-rest topic partition s.end t xs ys a h.3

oldest-base :
    (topic : TopicId) (partition next : ℕ) (ss : List Segment) (a : Segment)
    → IsChain topic partition next ss a
    → (oldest ss a).header.base_offset ≡ next
oldest-base topic partition next [] a h = h.1
oldest-base topic partition next (s ∷ ss) a h = h.1

-- What a proposal stands for: the oldest segments of `p`, each eligible, behind which a valid
-- partition with the same end starts at the proposed offset, at its anchor, with the bytes counted.
pub record IsProposal (c : PartitionConfig) (now : ℤ) (p : Partition) (q : Proposal) : Type 0 where
  pub split : q.retired ++ q.kept ≡ p.sealed
  pub eligible : AreEligible c now (total_bytes (segments p)) q.retired
  pub valid : IsValid q.new_l (retain p q)
  pub anchored : q.anchor.header.base_offset ≡ q.new_l
  pub remaining : q.remaining_bytes ≡ total_bytes (segments (retain p q))

-- The proposal of a retirement that is not empty.
abbrev proposed : Segment → Retirement → Segment → List Segment → Proposal
proposed active r s xs = record {
  retired = s ∷ xs;
  kept = r.kept;
  new_l = last_end s xs;
  anchor = oldest r.kept active;
  reason_mask = reason_mask r.by_time r.by_size;
  remaining_bytes = r.total;
}

proposed-IsProposal :
    (start : ℕ) (c : PartitionConfig) (now : ℤ) (p : Partition) (r : Retirement) (s : Segment)
    (xs : List Segment)
    → IsValid start p
    → IsRetirement max_retired_segments c now (total_bytes (segments p)) p.sealed r
    → r.retired ≡ s ∷ xs
    → IsProposal c now p (proposed p.active r s xs)
proposed-IsProposal start c now p r s xs v h e =
    let whole : (s ∷ xs) ++ r.kept ≡ p.sealed = rw e at h.split in
    let start_chain : IsChain p.topic p.partition start (s ∷ xs ++ r.kept) p.active =
      subst (λ ss. IsChain p.topic p.partition start ss p.active) (sym whole) v.chain in
    let chain = IsChain-rest p.topic p.partition start s xs r.kept p.active start_chain in
    let counted : total_bytes (segments p) ≡ total_bytes (s ∷ xs) + r.total = rw e at h.counted in
    let bytes : total_bytes ((s ∷ xs) ++ r.kept) ≡ total_bytes p.sealed = ap total_bytes whole in
    record {
      split = whole;
      eligible = subst (AreEligible c now (total_bytes (segments p))) e h.eligible;
      valid = record { chain = chain; log_end_eq = v.log_end_eq };
      anchored = oldest-base p.topic p.partition (last_end s xs) r.kept p.active chain;
      remaining = omega (
        arith,
        counted,
        bytes,
        total_bytes-append (s ∷ xs) r.kept,
        total_bytes-append p.sealed (p.active ∷ []),
        total_bytes-append r.kept (p.active ∷ []),
      );
    }

List-cases {ℓ} : {A : Type ℓ} (xs : List A) → (xs ≡ []) ⊎ ((x : A) × (ys : List A) × (xs ≡ x ∷ ys))
List-cases [] = inl refl
List-cases (x ∷ xs) = inr (x, xs, refl)

retired-IsProposal :
    (start : ℕ) (c : PartitionConfig) (now : ℤ) (p : Partition) (r : Retirement) (q : Proposal)
    → IsValid start p
    → IsRetirement max_retired_segments c now (total_bytes (segments p)) p.sealed r
    → proposal_of p.active r ≡ some q
    → IsProposal c now p q
retired-IsProposal start c now p r q v h e = elim (List-cases r.retired) [
  | inl none_retired ↦ let e' = rw none_retired at e in cc
  | inr (s, xs, g) ↦
      let e' : some (proposed p.active r s xs) ≡ some q = rw g at e in
      subst (IsProposal c now p) (some-injective e')
        (proposed-IsProposal start c now p r s xs v h g)
]

plan_retired-IsProposal :
    (start : ℕ) (c : PartitionConfig) (now : ℤ) (p : Partition) (total : ℕ) (q : Proposal)
    → IsValid start p
    → total ≡ total_bytes (segments p)
    → plan_retired p c now total ≡ ok (some q)
    → IsProposal c now p q
unfolding plan_retired
plan_retired-IsProposal start c now p total q v n h =
    let (r, g, e) = >>=-eq-ok (retire max_retired_segments c now total false false p.sealed) _ h in
    retired-IsProposal start c now p r q v
      (subst (λ t. IsRetirement max_retired_segments c now t p.sealed r) n
        (retire-IsRetirement max_retired_segments c now total false false p.sealed r g))
      (ok-injective e)

abbrev Planning : Type 0
Planning = Result (Option Proposal) × Partition

pair-injective : (s t : Planning) → s ≡ t → (s.0 ≡ t.0) × (s.1 ≡ t.1)
pair-injective s t h = (ap (λ (p : Planning). p.0) h, ap (λ (p : Planning). p.1) h)

rolled-bytes :
    (p : Partition) (s : Segment) (total : ℕ)
    → total ≡ 0 + total_bytes (segments p)
    → total + s.size ≡ total_bytes (segments (roll p s))
unfolding roll
rolled-bytes p s total h = omega (arith, h, total_bytes-append (segments p) (s ∷ []))

-- A proposal retires the oldest sealed segments, each eligible by its time or by the bytes left
-- when its turn comes, and the segments it retains are a valid partition with the same end, which
-- starts at the proposed offset, at the anchor, and holds the bytes that the proposal counts.
pub plan_retention-IsProposal :
    (start : ℕ) (p : Partition) (c : PartitionConfig) (now : ℤ) (created : Option SegmentId)
    (q : Proposal) (p' : Partition)
    → IsValid start p
    → plan_retention p c now created ≡ (ok (some q), p')
    → IsProposal c now p' q
plan_retention-IsProposal start p c now created q p' v h =
    elim (plan_retention-Course p c now created) [
      | failed e same ↦ let (g, _) = pair-injective _ _ (sym same ∙ h) in cc
      | fenced e same ↦ let (g, _) = pair-injective _ _ (sym same ∙ h) in cc
      | overflow e s id n made same ↦ let (g, _) = pair-injective _ _ (sym same ∙ h) in cc
      | planned total bytes same ↦
          let (g, at) = pair-injective _ _ (sym same ∙ h) in
          subst (λ t. IsProposal c now t q) at
            (plan_retired-IsProposal start c now p total q v
              (retained_segment_bytes-exact 0 (segments p) total bytes ∙ omega arith) g)
      | rolled total s id bytes n made same ↦
          let (g, at) = pair-injective _ _ (sym same ∙ h) in
          let valid =
            roll-IsValid start p s v n
              (create_segment-IsHeld p.topic p.partition p.log_end id s made) in
          subst (λ t. IsProposal c now t q) at
            (plan_retired-IsProposal start c now (roll p s) (total + s.size) q valid
              (rolled-bytes p s total (retained_segment_bytes-exact 0 (segments p) total bytes)) g)
    ]
