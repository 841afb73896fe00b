-- ===== src/Signing/Limits.antt =====
-- `reserve_parser_free_limits` of crates/bloom-signer/src/engine.rs: the counters of an approval and
-- its sliding windows.
use bloom_signer.Prelude.{
  ℕ, ◌+◌, ◌-◌, ◌^◌, Bool, true, ◌&&◌, not, List, [], ◌∷◌, Option, none, some, ◌==◌, ltb, leb,
  if◌then◌else◌, find?, count_where, rows_where, map,
}
use bloom_signer.Prelude.Result.{
  Result, ok, reject_if, ok_or, ◌>>=◌, ◌>>◌, service_unavailable, malformed_frame,
  limit_exceeded_operations, limit_exceeded_signatures, signer_rate_backstop_denied,
}
use bloom_signer.Signing.Request.{UnsignedSignRequest}
use bloom_signer.Signing.Terms.{SlidingWindow, SealedApprovalTerms}
use bloom_signer.Signing.State.{Approval, Operation, released, state_eq, Tables, is_approval}

abbrev pub i64_limit : ℕ
i64_limit = 2 ^ 63

-- `u64::checked_add`
unfoldable pub checked_add : ℕ → ℕ → Option ℕ
checked_add a b = if ltb (a + b) (2 ^ 64) then some (a + b) else none

-- `CAST(… AS INTEGER)` of a decimal text, which SQLite stops at the largest signed integer.
unfoldable pub cast_integer : ℕ → ℕ
cast_integer n = if ltb n i64_limit then n else i64_limit - 1

-- An operation that counts: it was not released.
unfoldable pub is_live : ℕ → Operation → Bool
is_live approval row = row.approval_id == approval && not (state_eq row.state released)

unfoldable pub in_window : ℕ → ℕ → ℕ → Operation → Bool
in_window approval start now row =
    is_live approval row
    && ltb start (cast_integer row.accepted_at_ms)
    && leb (cast_integer row.accepted_at_ms) now

-- `start` of a window. Both ends must fit an `i64`.
unfoldable pub window_start : ℕ → SlidingWindow → Result ℕ
window_start now window =
    reject_if (leb i64_limit (now - window.duration_ms)) malformed_frame
    >> reject_if (leb i64_limit now) malformed_frame
    >> ok (now - window.duration_ms)

unfoldable pub exceeds : Option ℕ → ℕ → Bool
exceeds none maximum = true
exceeds (some count) maximum = ltb maximum count

unfoldable pub check_operation_window : ℕ → ℕ → List Operation → SlidingWindow → Result (Unit {0})
check_operation_window approval now rows window = window_start now window >>= λ start.
    reject_if
      (exceeds (checked_add (count_where (in_window approval start now) rows) 1) window.maximum)
      signer_rate_backstop_denied

unfoldable pub check_operation_windows :
    ℕ → ℕ → List Operation → List SlidingWindow → Result (Unit {0})
check_operation_windows approval now rows [] = ok tt
check_operation_windows approval now rows (window ∷ windows) =
    check_operation_window approval now rows window
    >> check_operation_windows approval now rows windows

-- The sum of the counts, from `count` on.
unfoldable pub checked_sum : ℕ → List ℕ → Result ℕ
checked_sum count [] = ok count
checked_sum count (value ∷ values) =
    ok_or (checked_add count value) signer_rate_backstop_denied >>= λ sum. checked_sum sum values

unfoldable pub check_signature_window :
    ℕ → ℕ → ℕ → List Operation → SlidingWindow → Result (Unit {0})
check_signature_window approval signatures now rows window = window_start now window >>= λ start.
    checked_sum 0
      (map (λ row. row.signature_count) (rows_where (in_window approval start now) rows))
    >>= λ count.
        reject_if (exceeds (checked_add count signatures) window.maximum)
          signer_rate_backstop_denied

unfoldable pub check_signature_windows :
    ℕ → ℕ → ℕ → List Operation → List SlidingWindow → Result (Unit {0})
check_signature_windows approval signatures now rows [] = ok tt
check_signature_windows approval signatures now rows (window ∷ windows) =
    check_signature_window approval signatures now rows window
    >> check_signature_windows approval signatures now rows windows

-- The next counters of the approval.
pub record Counters : Type 0 where
  pub next_operations : ℕ
  pub next_signatures : ℕ

unfoldable pub next_counters :
    UnsignedSignRequest → SealedApprovalTerms → Approval → Result Counters
next_counters u terms row =
    ok_or (checked_add row.committed_operations 1) limit_exceeded_operations >>= λ operations.
    reject_if (ltb terms.limits.max_operations operations) limit_exceeded_operations
    >> (ok_or (checked_add row.committed_signatures u.signature_count) limit_exceeded_signatures
        >>= λ signatures.
            reject_if (ltb terms.limits.max_signatures signatures) limit_exceeded_signatures
            >> ok (record { next_operations = operations; next_signatures = signatures }))

-- `reserve_parser_free_limits`
unfoldable pub reserve_parser_free_limits :
    Tables → UnsignedSignRequest → SealedApprovalTerms → ℕ → Result Counters
reserve_parser_free_limits t u terms now =
    ok_or (find? (is_approval u.approval_id) t.approvals) service_unavailable >>= λ row.
    next_counters u terms row >>= λ counters.
    check_operation_windows u.approval_id now t.operations terms.limits.operation_rate_limits
    >> check_signature_windows u.approval_id u.signature_count now t.operations
        terms.limits.signature_rate_limits
    >> ok counters
