-- ===== src/Errors/Tests.antt =====
-- The theorems on the wire form of errors at concrete errors.
use bloom_signer.Prelude.{◌≡◌, refl, [], ◌∷◌, some, bytes_eq, find?}
use bloom_signer.Prelude.Result.{clock_rollback}
use bloom_signer.Errors.{
  after_repair, no_effect, retry_eq, effect_eq, as_str, is_named, from_str, contract, new_error,
  to_wire, checked_error, from_wire,
}
use bloom_signer.Errors.Laws.{from_wire-to_wire, from_wire_faithful}

from_wire-to_wire_example :
    (from_wire (to_wire (new_error clock_rollback (7 ∷ [])))
      ≡ some (new_error clock_rollback (7 ∷ [])))
    × (from_str (as_str clock_rollback) ≡ some clock_rollback)
from_wire-to_wire_example = from_wire-to_wire clock_rollback (7 ∷ [])

from_wire_faithful_example :
    (to_wire (new_error clock_rollback []) ≡ to_wire (new_error clock_rollback []))
    × (after_repair ≡ after_repair)
    × (no_effect ≡ no_effect)
unfolding retry_eq effect_eq as_str is_named from_str contract new_error to_wire checked_error
    from_wire bytes_eq find?
from_wire_faithful_example =
    from_wire_faithful (to_wire (new_error clock_rollback [])) (new_error clock_rollback []) refl
