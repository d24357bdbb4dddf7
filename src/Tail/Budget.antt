-- ===== src/Tail/Budget.antt =====
-- The tail's byte budget.
use immulog.Prelude.{
  ℕ, ◌+◌, ◌-◌, ◌^◌, ◌≤◌, ◌<◌, ◌≡◌, true, false, Bool, refl, ltb, ◌%◌, Bool-cases, subst, ltb→lt,
  ltb-false→le, inl, inr, arith,
}
use immulog.Tail.{TailBudget, try_replace, release_budget}

-- A budget whose use is within its limit.
pub record IsWithin (b : TailBudget) : Type 0 where
  pub held : b.bytes ≤ b.limit
  pub width : b.limit < 2 ^ 64

-- What replacing some bytes by others does to a budget: where the bytes are held and the new use is
-- within the limit it is granted and the use is that, and otherwise it is refused and nothing changes.
abbrev pub Replaced : TailBudget → ℕ → ℕ → Bool × TailBudget → Type 0
Replaced b removed added (true, b') =
    (removed ≤ b.bytes)
    × (b'.bytes + removed ≡ b.bytes + added)
    × (b'.limit ≡ b.limit)
    × IsWithin b'
Replaced b removed added (false, b') =
    (removed ≤ b.bytes → b.limit + removed < b.bytes + added) × (b' ≡ b)

granted :
    (limit bytes removed added : ℕ)
    → limit < 2 ^ 64
    → bytes ≤ limit
    → removed ≤ bytes
    → ltb ((limit + (2 ^ 64 - (bytes - removed))) % 2 ^ 64) added ≡ false
    → (bytes - removed + added) % 2 ^ 64 + removed ≡ bytes + added
granted limit bytes removed added w h r e = ground arith

granted_held :
    (limit bytes removed added : ℕ)
    → limit < 2 ^ 64
    → bytes ≤ limit
    → removed ≤ bytes
    → ltb ((limit + (2 ^ 64 - (bytes - removed))) % 2 ^ 64) added ≡ false
    → (bytes - removed + added) % 2 ^ 64 ≤ limit
granted_held limit bytes removed added w h r e = ground arith

-- For a budget within its limit, a replacement of bytes is granted exactly where the bytes to drop
-- are in use and the use behind it is within the limit. It then has that use, and the budget stays
-- within its limit; a refusal changes nothing.
pub try_replace-Replaced :
    (b : TailBudget) (removed added : ℕ)
    → IsWithin b
    → Replaced b removed added (try_replace b removed added)
unfolding try_replace
try_replace-Replaced b removed added w = elim (Bool-cases (ltb b.bytes removed)) [
  | inl more ↦ rw more (λ h. ground arith, refl)
  | inr held ↦
      rw held (elim (Bool-cases (ltb ((b.limit + (2 ^ 64 - (b.bytes - removed))) % 2 ^ 64) added)) [
        | inl over ↦
            rw over
              (λ h. omega (arith, ltb→lt _ _ over, ltb-false→le _ _ held, w.width, w.held, h), refl)
        | inr room ↦ rw room (
          ltb-false→le _ _ held,
          granted b.limit b.bytes removed added w.width w.held (ltb-false→le _ _ held) room,
          refl,
          record {
            held =
                granted_held b.limit b.bytes removed added w.width w.held (ltb-false→le _ _ held)
                  room;
            width = w.width;
          },
        )
      ])
]

-- The release of bytes that a budget within its limit has just granted gives its former use back.
pub release_budget-try_replace :
    (b b' : TailBudget) (added : ℕ)
    → IsWithin b
    → try_replace b 0 added ≡ (true, b')
    → ((release_budget b' added).bytes ≡ b.bytes) × ((release_budget b' added).limit ≡ b.limit)
unfolding release_budget
release_budget-try_replace b b' added w e =
    let (held, sum, limit, within) =
      subst (Replaced b 0 added) e (try_replace-Replaced b 0 added w) in
    (ground arith, ground arith)
