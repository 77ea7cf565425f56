-- ===== src/Policies/Eligibility.antt =====
-- Which failures may be retried.
use dbkit_sql.Prelude.{ℕ, ◌<◌, Option, none, some, Bool, true, false, ◌≡◌, ◌⊎◌, ◌↔◌, arith}
use dbkit_sql.Errors.{DatabaseError}
use dbkit_sql.Query.{Query, is_write}
use dbkit_sql.Policies.{RetryConfig, is_idempotent, should_retry}

-- A query object that mutates data or schema.
abbrev pub writes : Option Query → Bool
writes none = false
writes (some q) = is_write q

-- A retry is allowed exactly when attempts are left, the error is retryable, the transaction's outcome
-- is known, and either the query is no write and reads are retried, or it is a write, writes are
-- retried, and it is idempotent.
pub should_retry_iff :
    (e : DatabaseError) (query : Option Query) (c : RetryConfig) (attempt : ℕ)
    (override : Option Bool)
    → (should_retry e query c attempt override ≡ true) ↔ (
        (attempt < c.attempts)
        × (e.retryable ≡ true)
        × (e.transaction_state_unknown ≡ false)
        × (((writes query ≡ false) × (c.retry_reads ≡ true))
            ⊎ ((writes query ≡ true)
                × (c.retry_writes ≡ true)
                × (is_idempotent query override ≡ true))))
unfolding should_retry
should_retry_iff e query c attempt override = ground arith
