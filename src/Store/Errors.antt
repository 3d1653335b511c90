-- ===== src/Store/Errors.antt =====
-- The exceptions of app/store.py and app/work.py, one constructor for each `raise`, the status that
-- the handlers of app/main.py answer with, and transactions that roll back.
use engineering_worker_pool.Base.{◌≡◌, refl, ◌⊎◌, inl, inr, Bool, true, false, Option, none, some}

pub data ErrorClass : Type 0 where
  not_found conflict value_error integrity : ErrorClass

pub data Error : Type 0 where
  -- NotFoundError
  row_not_found worker_not_found task_not_found work_not_found : Error
  -- ConflictError
  cutover_not_enabled target_branch_diverges fencing_diverges wrong_role wrong_profile : Error
  not_governed rules_sha_diverges worker_stale worker_busy claimed_concurrently : Error
  invalid_state invalid_lease fence_required invalid_generation invalid_attempt : Error
  lease_expired only_builder_starts builder_diverges independent_validator : Error
  no_produced_sha effect_unresolved checkpoint_needs_fence checkpoint_diverges : Error
  effect_unknown sequence_conflict reconciliation_diverges reconciliation_needs_fence : Error
  not_awaiting_reconciliation effect_not_pending generation_diverges only_blocked : Error
  evidence_controls task_not_validated validation_sha_diverges evidence_diverges : Error
  work_diverges evidence_required head_sha_diverges merge_diverges block_diverges : Error
  -- ValueError
  invalid_argument : Error
  -- sqlite3.IntegrityError: a constraint of the schema stopped the statement
  constraint_failed : Error

pub class_of : Error → ErrorClass
class_of row_not_found = not_found
class_of worker_not_found = not_found
class_of task_not_found = not_found
class_of work_not_found = not_found
class_of invalid_argument = value_error
class_of constraint_failed = integrity
class_of _ = conflict

pub data Result {ℓ} (S : Type ℓ) : Type ℓ where
  err : Error → Result S
  ok : S → Result S

infixl 5 ◌>>=◌ ◌>>◌
abbrev pub ◌>>=◌ {ℓ κ} : {S : Type ℓ} {T : Type κ} → Result S → (S → Result T) → Result T
err raised >>= next = err raised
ok value >>= next = next value

abbrev pub ◌>>◌ {ℓ κ} : {A : Type ℓ} {B : Type κ} → Result A → Result B → Result B
m >> k = m >>= λ _. k

abbrev pub raise_if : Bool → Error → Result (Unit {0})
raise_if true e = err e
raise_if false e = ok tt

abbrev pub or_raise {ℓ} : {A : Type ℓ} → Option A → Error → Result A
or_raise none e = err e
or_raise (some a) e = ok a

-- `with self._tx()`, then what is read after the commit: an exception inside rolls back, one after
-- it leaves the committed tables.
abbrev pub commit {ℓ κ} : {S : Type ℓ} {A : Type κ} → S → Result S → (S → Result A) → Result A × S
commit before (ok after) read = (read after, after)
commit before (err e) read = (err e, before)

-- A successful bind has a successful first part.
pub >>=-eq-ok {ℓ κ} :
    {S : Type ℓ} {T : Type κ} (first : Result S) (rest : S → Result T) {t : T}
    → first >>= rest ≡ ok t
    → (s : S) × (first ≡ ok s) × (rest s ≡ ok t)
>>=-eq-ok (err raised) rest done = absurd (cc)
>>=-eq-ok (ok s) rest done = (s, refl, done)

-- A check that let the rest through.
pub raise_if-eq-ok {ℓ} :
    {A : Type ℓ} (b : Bool) (e : Error) (r : Result A) (a : A)
    → (raise_if b e >> r) ≡ ok a
    → (b ≡ false) × (r ≡ ok a)
raise_if-eq-ok true e r a h = absurd (cc)
raise_if-eq-ok false e r a h = (refl, h)

pub Result-cases {ℓ} :
    {A : Type ℓ} (r : Result A) → ((a : A) × (r ≡ ok a)) ⊎ ((e : Error) × (r ≡ err e))
Result-cases (ok a) = inl (a, refl)
Result-cases (err e) = inr (e, refl)

-- What holds of the tables before a transaction, and after it where it succeeds, holds after it.
pub commit_cases {ℓ κ ι} :
    {S : Type ℓ} {A : Type κ} (P : S → Type ι) (before : S) (r : Result S) (read : S → Result A)
    → P before
    → ((after : S) → r ≡ ok after → P after)
    → P (commit before r read).1
commit_cases P before (ok after) read b a = a after refl
commit_cases P before (err e) read b a = b
