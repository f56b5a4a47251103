-- ===== src/Examples/Columns.antt =====
-- Noon in Kolkata, stored and read back.
use revenueguard_ai.Common.{◌≡◌, some, ◌*◌}
use revenueguard_ai.Common.Int.{pos}
use revenueguard_ai.Models.Time.{DateTime, to_utc, hour_us}
use revenueguard_ai.Database.Types.{
  process_bind_param, process_result_value, process_result_value-process_bind_param,
}

abbrev kolkata_noon : DateTime
kolkata_noon = record { wall = pos (12 * hour_us); offset = some (pos 19_800_000_000) }

process_result_value-process_bind_param_example :
    (process_result_value (process_bind_param (some kolkata_noon))
      ≡ some (record { wall = to_utc kolkata_noon; offset = some (pos 0) }))
    × (to_utc (record { wall = to_utc kolkata_noon; offset = some (pos 0) }) ≡ to_utc kolkata_noon)
    × (process_bind_param (process_result_value (process_bind_param (some kolkata_noon)))
        ≡ process_bind_param (some kolkata_noon))
process_result_value-process_bind_param_example =
    process_result_value-process_bind_param kolkata_noon
