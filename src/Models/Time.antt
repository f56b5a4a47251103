-- ===== src/Models/Time.antt =====
-- Python's `datetime` as the program uses it. A moment is a count of microseconds from the start of
-- year 1 (UTC); a `datetime` is a reading of a clock face and the offset of its zone, if it has one.
use Prim.Native.Char.{code}
use revenueguard_ai.Common.{ℕ, ◌≡◌, String, Option, none, some, if◌then◌else◌, ◌==◌}
use Prim.Native.String.{◌++◌}
use revenueguard_ai.Common.Int.{ℤ, ◌-ℤ◌}

pub record DateTime : Type 0 where
  pub wall : ℤ
  pub offset : Option ℤ

-- What a dictionary can hold where the program expects a moment.
pub data TimeValue : Type 0 where
  moment : DateTime → TimeValue
  text : String → TimeValue
  other : TimeValue

-- `value.replace("Z", "+00:00")`
unfoldable pub replace_z : String → String
replace_z String.[] = String.[]
replace_z (String.◌∷◌ c s) =
    let rest = replace_z s in if code c == b'Z' then "+00:00" ++ rest else String.◌∷◌ c rest

-- The standard library's ISO texts, as the program relies on them: what `isoformat` writes of an
-- aware `datetime` is read back, also after `replace_z`.
pub record Iso : Type 0 where
  pub from_iso : String → Option DateTime
  pub to_iso : DateTime → String
  pub read_back : (d : DateTime) → from_iso (replace_z (to_iso d)) ≡ some d

-- The moment of a `datetime`: one without a zone is taken as UTC.
unfoldable pub to_utc : DateTime → ℤ
to_utc d = elim d.offset [ none ↦ d.wall | some o ↦ d.wall -ℤ o ]

-- PolicyEngine._parse_datetime, of what `dict.get` returned.
unfoldable pub parse_datetime : Iso → Option TimeValue → Option ℤ
unfolding to_utc
parse_datetime iso none = none
parse_datetime iso (some (moment d)) = some (to_utc d)
parse_datetime iso (some (text s)) = elim (iso.from_iso (replace_z s)) [
  | none ↦ none
  | some d ↦ some (to_utc d)
]
parse_datetime iso (some other) = none

abbrev pub hour_us : ℕ
hour_us = 3_600_000_000

abbrev pub second_us : ℕ
second_us = 1_000_000

-- A moment of the program's own clock, `datetime.now(timezone.utc)`.
abbrev pub utc : ℕ → DateTime
utc now = record { wall = ℤ.pos now; offset = some (ℤ.pos 0) }

-- One run's readings of the clock, each named for the place that reads it.
pub record Clock : Type 0 where
  pub cooldown_check : ℕ
  pub quiet_check : ℕ
  pub approval_check : ℕ
  pub approval_request : ℕ
  pub assertion : ℕ
  pub execution : ℕ
  pub stamp : ℕ
