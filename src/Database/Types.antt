-- ===== src/Database/Types.antt =====
-- backend/db/types.py: UTCDateTime, the type of every column that holds a moment.
use revenueguard_ai.Common.{◌≡◌, refl, ap, Option, none, some, arith}
use revenueguard_ai.Common.Int.{ℤ, pos, negsuc, ◌-ℤ◌}
use revenueguard_ai.Models.Time.{DateTime, to_utc}

-- `value.replace(tzinfo=None)`, after `astimezone(timezone.utc)` of an aware one.
abbrev naive : DateTime → DateTime
naive d = record { wall = elim d.offset [ none ↦ d.wall | some o ↦ d.wall -ℤ o ]; offset = none }

abbrev aware : DateTime → DateTime
aware d = record {
  wall = elim d.offset [ none ↦ d.wall | some o ↦ d.wall -ℤ o ];
  offset = some (pos 0);
}

-- What is written to the database.
unfoldable pub process_bind_param : Option DateTime → Option DateTime
process_bind_param none = none
process_bind_param (some d) = some (naive d)

-- What is read from it.
unfoldable pub process_result_value : Option DateTime → Option DateTime
process_result_value none = none
process_result_value (some d) = some (aware d)

minus_zero : (z : ℤ) → z -ℤ pos 0 ≡ z
unfolding ◌-ℤ◌
minus_zero (pos n) = ground arith
minus_zero (negsuc n) = ground arith

-- A moment that is stored and read back is the same moment, given in UTC, whatever zone it came in;
-- one without a zone was in UTC. Storing what was read stores the same value again.
pub process_result_value-process_bind_param :
    (d : DateTime)
    → (process_result_value (process_bind_param (some d))
        ≡ some (record { wall = to_utc d; offset = some (pos 0) }))
      × (to_utc (record { wall = to_utc d; offset = some (pos 0) }) ≡ to_utc d)
      × (process_bind_param (process_result_value (process_bind_param (some d)))
          ≡ process_bind_param (some d))
unfolding process_bind_param process_result_value to_utc
process_result_value-process_bind_param d =
    (refl, minus_zero _, ap (λ z. some (record { wall = z; offset = none })) (minus_zero _))
