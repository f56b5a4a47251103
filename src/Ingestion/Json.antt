-- ===== src/Ingestion/Json.antt =====
-- JSON values as `json.loads` returns them, and the operations of Python that the webhook applies
-- to them. `none` is an exception: AttributeError, TypeError or a refused validation.
pub mod Words
use Prim.Native.Char.{code, Char}
use revenueguard_ai.Common.{
  ℕ, ◌+◌, ◌==◌, leb, ◌&&◌, String, Bool, true, false, Option, none, some, if◌then◌else◌, str_eq,
}
use revenueguard_ai.Common.Int.{ℤ}

-- `fraction` stands for every number that is no integer: nothing below reads its value, and it is
-- not 0.
mutual
  pub data Json : Type 0 where
    null : Json
    boolean : Bool → Json
    number : ℤ → Json
    fraction : Json
    text : String → Json
    array : Items → Json
    object : Members → Json

  pub data Items : Type 0 where
    no_items : Items
    item : Json → Items → Items

  pub data Members : Type 0 where
    no_members : Members
    member : String → Json → Members → Members

-- `members.get(key)`, where `none` is an absent key.
unfoldable pub lookup : String → Members → Option Json
lookup key no_members = none
lookup key (member k v rest) = let found = lookup key rest in if str_eq k key then some v else found

abbrev pub or_else : Option Json → Json → Json
or_else none d = d
or_else (some v) d = v

-- `members.get(key, default)`
unfoldable pub get_key : String → Json → Members → Json
get_key key d members = or_else (lookup key members) d

-- What has the method `get`.
abbrev pub as_members : Json → Option Members
as_members (object m) = some m
as_members _ = none

-- The truth value.
unfoldable pub is_true : Json → Bool
is_true null = false
is_true (boolean b) = b
is_true (number (ℤ.pos n)) = if n == 0 then false else true
is_true (number z) = true
is_true fraction = true
is_true (text String.[]) = false
is_true (text s) = true
is_true (array no_items) = false
is_true (array l) = true
is_true (object no_members) = false
is_true (object m) = true

-- A field of type `str`, and one of type `str | None`, as pydantic takes them.
abbrev pub as_text : Json → Option String
as_text (text s) = some s
as_text _ = none

abbrev pub as_text_or_none : Json → Option (Option String)
as_text_or_none (text s) = some (some s)
as_text_or_none null = some none
as_text_or_none _ = none

-- The lower case of a character, where it is an ASCII letter: besides A to Z that is so of the
-- Kelvin sign.
abbrev lower_code : Char → ℕ
lower_code c =
    if leb b'A' (code c) && leb (code c) b'Z'
    then code c + 32
    else if code c == 0x212A
    then b'k'
    else code c

-- `s.lower() == word`, for a word of small ASCII letters and underscores.
unfoldable pub is_word : String → String → Bool
is_word String.[] String.[] = true
is_word (String.◌∷◌ c s) (String.◌∷◌ d w) = lower_code c == code d && is_word s w
is_word _ _ = false

-- `value.lower()` of a text, or "" for what is falsy.
abbrev pub text_if_true : Json → Option String
text_if_true (text s) = some s
text_if_true j = if is_true j then none else some ""

infixl 5 ◌>>=◌
abbrev pub ◌>>=◌ {ℓ κ} : {A : Type ℓ} {B : Type κ} → Option A → (A → Option B) → Option B
none >>= f = none
some a >>= f = f a
