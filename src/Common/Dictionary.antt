-- ===== src/Common/Dictionary.antt =====
-- A key of a Python dictionary: absent, present with `None`, or present with a value.
use mathlib.Core.Bool.{Bool}
use mathlib.Core.Option.{Option, none, some}

pub data Entry {ℓ} (A : Type ℓ) : Type ℓ where
  missing null : Entry A
  value : A → Entry A

-- `payload.get(key, default)`: the default serves an absent key only.
abbrev pub get {ℓ} : {A : Type ℓ} → Entry A → Option A → Option A
get missing d = d
get null d = none
get (value a) d = some a

-- `payload.get(key, False)` as a condition.
abbrev pub truthy : Entry Bool → Bool
truthy (value b) = b
truthy _ = Bool.false

-- `x if x is not None else d`
abbrev pub or_default {ℓ} : {A : Type ℓ} → Option A → A → A
or_default none d = d
or_default (some a) d = a
