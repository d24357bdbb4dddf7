-- ===== src/Api/Errors.antt =====
-- api/errors.go, and how storage/format.go joins errors. A caller tests an error by `errors.Is`, so
-- an error is the sentinels joined in it with its detail text.
use immulog.Prelude.{
  String, Bool, true, false, if◌then◌else◌, ◌≡◌, ◌⊎◌, inl, inr, refl, ap, List, [], ◌∷◌,
}

pub data Sentinel : Type 0 where
  unknown_topic offset_out_of_range partition_unavailable append_outcome_unknown : Sentinel
  data_dir_locked lock_unsupported topic_exists metadata_unavailable : Sentinel
  metadata_outcome_unknown assignment_lost group_unavailable commit_outcome_unknown : Sentinel
  commit_regression invalid_commit backpressure record_too_large fetch_limit_too_small : Sentinel
  resource_limit system_log_capacity disk_pressure closing closed close_incomplete : Sentinel
  concurrent_operation corrupt_log unsupported_format invalid_argument : Sentinel
  -- the package's own values, `errInvalidBatch` and the two after it
  invalid_batch invalid_record invalid_segment : Sentinel
  -- an error of the operating system, or one made by `errors.New` alone
  system other : Sentinel

pub record Error : Type 0 where
  pub joined : List Sentinel
  pub detail : String

-- A function that returns a value and an error.
pub data Result {k} (T : Type k) : Type k where
  err : Error → Result T
  ok : T → Result T

unfoldable pub corrupt : Sentinel → String → Error
corrupt kind detail = record { joined = Sentinel.corrupt_log ∷ kind ∷ []; detail = detail }

pub invalid : Sentinel → String → Error
invalid kind detail = record { joined = Sentinel.invalid_argument ∷ kind ∷ []; detail = detail }

pub unsupported : String → Error
unsupported detail = record { joined = Sentinel.unsupported_format ∷ []; detail = detail }

-- `errors.Join` of sentinels with a text.
unfoldable pub join : List Sentinel → String → Error
join sentinels detail = record { joined = sentinels; detail = detail }

-- `if test { return e }`
abbrev pub reject_if : Bool → Error → Result (Unit {0})
reject_if test e = if test then err e else ok tt

infixl 5 ◌>>=◌
-- `x, err := m; if err != nil { return err }`
abbrev pub ◌>>=◌ {k n} : {T : Type k} {U : Type n} → Result T → (T → Result U) → Result U
err e >>= next = err e
ok x >>= next = next x

-- The same where the value is not used.
infixl 5 ◌>>◌
abbrev pub ◌>>◌ {n} : {U : Type n} → Result (Unit {0}) → Result U → Result U
test >> next = test >>= (λ _. next)

-- What a chain of calls that succeeds has behind it.
pub >>=-eq-ok {k n} :
    {T : Type k} {U : Type n} (r : Result T) (next : T → Result U) {u : U}
    → (r >>= next) ≡ ok u
    → (t : T) × (r ≡ ok t) × (next t ≡ ok u)
>>=-eq-ok (err e) next q = cc
>>=-eq-ok (ok t) next q = (t, refl, q)

pub reject_if-eq-ok {ℓ} :
    {B : Type ℓ} (t : Bool) (e : Error) (k : Result B) {b : B}
    → (reject_if t e >> k) ≡ ok b
    → (t ≡ false) × (k ≡ ok b)
reject_if-eq-ok true e k h = cc
reject_if-eq-ok false e k h = (refl, h)

pub Result-cases {ℓ} :
    {A : Type ℓ} (r : Result A) → ((a : A) × (r ≡ ok a)) ⊎ ((e : Error) × (r ≡ err e))
Result-cases (ok a) = inl (a, refl)
Result-cases (err e) = inr (e, refl)

pub ok-injective {ℓ} : {A : Type ℓ} {a b : A} → ok a ≡ ok b → a ≡ b
ok-injective {A = A} {a = a} h = ap (λ (r : Result A). elim r [ ok x ↦ x | err e ↦ a ]) h
