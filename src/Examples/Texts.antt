-- ===== src/Examples/Texts.antt =====
-- A text for every `datetime`: its numbers in binary, `a` for 0 and `b` for 1, each ended by `c`.
use Prim.Native.String.{String}
use Prim.Native.Char.{Char, code}
use revenueguard_ai.Common.{
  ℕ, zero, suc, ◌+◌, ◌*◌, ◌/◌, ◌%◌, ◌≤◌, ◌≡◌, refl, ap, sym, ◌∙◌, Bool-cases, inl, inr, Bool, true,
  false, Option, none, some, if◌then◌else◌, ◌==◌, arith,
}
use revenueguard_ai.Common.Int.{ℤ, pos, negsuc}
use revenueguard_ai.Models.Time.{DateTime, Iso, replace_z}

abbrev bit : ℕ → Char
bit n = if n % 2 == 1 then "b" else "a"

-- A number, least digit first, before a text.
unfoldable pub digits : ℕ → ℕ → String → String
digits zero n rest = String.◌∷◌ "c" rest
digits (suc fuel) n rest = elim (n == 0) [
  | true ↦ String.◌∷◌ "c" rest
  | false ↦ String.◌∷◌ (bit n) (digits fuel (n / 2) rest)
]

abbrev digit : Char → ℕ → ℕ
digit c n = if code c == b'b' then 2 * n + 1 else 2 * n

unfoldable pub number : String → ℕ × String
number String.[] = (0, "")
number (String.◌∷◌ c s) =
    let (n, rest) = number s in if code c == b'c' then (0, s) else (digit c n, rest)

data IsWritten (fuel n : ℕ) (rest : String) (s : String) : Type 0 where
  ended : n ≡ 0 → s ≡ String.◌∷◌ "c" rest → IsWritten fuel n rest s
  even : n ≡ 2 * (n / 2) → s ≡ String.◌∷◌ "a" (digits fuel (n / 2) rest) → IsWritten fuel n rest s
  odd :
      n ≡ 2 * (n / 2) + 1 → s ≡ String.◌∷◌ "b" (digits fuel (n / 2) rest) → IsWritten fuel n rest s

digits-IsWritten : (fuel n : ℕ) (rest : String) → IsWritten fuel n rest (digits (suc fuel) n rest)
unfolding digits
digits-IsWritten fuel n rest = elim (Bool-cases (n == 0)) [
  | inl z ↦ ended (ground arith) (
      ap
        (λ t. elim t [
          | true ↦ String.◌∷◌ "c" rest
          | false ↦ String.◌∷◌ (bit n) (digits fuel (n / 2) rest)
        ])
        z)
  | inr nz ↦ elim (Bool-cases (n % 2 == 1)) [
    | inl one ↦ odd (ground arith) (
        ap
          (λ t. elim t [
            | true ↦ String.◌∷◌ "c" rest
            | false ↦ String.◌∷◌ (bit n) (digits fuel (n / 2) rest)
          ])
          nz
        ∙ ap (λ t. String.◌∷◌ (if t then "b" else "a") (digits fuel (n / 2) rest)) one)
    | inr none_left ↦ even (ground arith) (
        ap
          (λ t. elim t [
            | true ↦ String.◌∷◌ "c" rest
            | false ↦ String.◌∷◌ (bit n) (digits fuel (n / 2) rest)
          ])
          nz
        ∙ ap (λ t. String.◌∷◌ (if t then "b" else "a") (digits fuel (n / 2) rest)) none_left)
  ]
]

number-digits : (fuel n : ℕ) (rest : String) → n ≤ fuel → number (digits fuel n rest) ≡ (n, rest)
unfolding number
number-digits zero n rest h =
    unfold digits in ap (λ m. (m, rest)) (let e : 0 ≡ n = omega arith in e)
number-digits (suc fuel) n rest h = elim (digits-IsWritten fuel n rest) [
  | ended z e ↦ ap number e ∙ ap (λ m. (m, rest)) (sym z)
  | even twice e ↦
      ap number e
      ∙ ap (λ p. (2 * p.0, p.1)) (number-digits fuel (n / 2) rest (omega arith))
      ∙ ap (λ m. (m, rest)) (sym twice)
  | odd twice e ↦
      ap number e
      ∙ ap (λ p. (2 * p.0 + 1, p.1)) (number-digits fuel (n / 2) rest (omega arith))
      ∙ ap (λ m. (m, rest)) (sym twice)
]

replace_z-digits :
    (fuel n : ℕ) (rest : String) → replace_z (digits fuel n rest) ≡ digits fuel n (replace_z rest)
unfolding replace_z digits
replace_z-digits zero n rest = refl
replace_z-digits (suc fuel) n rest = elim (Bool-cases (n == 0)) [
  | inl z ↦ rw (z, digits) refl
  | inr nz ↦ elim (Bool-cases (n % 2 == 1)) [
    | inl one ↦ rw (nz, digits, one) (ap (String.◌∷◌ "b") (replace_z-digits fuel (n / 2) rest))
    | inr none_left ↦
        rw (nz, digits, none_left) (ap (String.◌∷◌ "a") (replace_z-digits fuel (n / 2) rest))
  ]
]

unfoldable pub write_int : ℤ → String → String
write_int (pos n) rest = String.◌∷◌ "p" (digits n n rest)
write_int (negsuc n) rest = String.◌∷◌ "n" (digits n n rest)

unfoldable pub write_offset : Option ℤ → String
write_offset none = "o"
write_offset (some z) = write_int z ""

unfoldable pub signed : Bool → ℕ × String → Option (ℤ × String)
signed true (n, rest) = some (pos n, rest)
signed false (n, rest) = some (negsuc n, rest)

unfoldable pub read_int : String → Option (ℤ × String)
read_int String.[] = none
read_int (String.◌∷◌ c s) =
    if code c == b'p'
    then signed true (number s)
    else if code c == b'n'
    then signed false (number s)
    else none

unfoldable pub offset_of : Option (ℤ × String) → Option ℤ
offset_of none = none
offset_of (some (z, rest)) = some z

unfoldable pub date_of : Option (ℤ × String) → Option DateTime
date_of none = none
date_of (some (z, rest)) = some (record { wall = z; offset = offset_of (read_int rest) })

read_int-write_int : (z : ℤ) (rest : String) → read_int (write_int z rest) ≡ some (z, rest)
unfolding read_int write_int signed
read_int-write_int (pos n) rest = ap (signed true) (number-digits n n rest (omega arith))
read_int-write_int (negsuc n) rest = ap (signed false) (number-digits n n rest (omega arith))

replace_z-write_int :
    (z : ℤ) (rest : String) → replace_z (write_int z rest) ≡ write_int z (replace_z rest)
unfolding replace_z write_int
replace_z-write_int (pos n) rest = ap (String.◌∷◌ "p") (replace_z-digits n n rest)
replace_z-write_int (negsuc n) rest = ap (String.◌∷◌ "n") (replace_z-digits n n rest)

replace_z-write_offset : (o : Option ℤ) → replace_z (write_offset o) ≡ write_offset o
unfolding replace_z write_offset
replace_z-write_offset none = refl
replace_z-write_offset (some z) = replace_z-write_int z ""

offset_of-write_offset : (o : Option ℤ) → offset_of (read_int (write_offset o)) ≡ o
unfolding read_int write_offset offset_of
offset_of-write_offset none = refl
offset_of-write_offset (some z) = ap offset_of (read_int-write_int z "")

unfoldable pub write_date : DateTime → String
write_date d = write_int d.wall (write_offset d.offset)

unfoldable pub read_date : String → Option DateTime
read_date s = date_of (read_int s)

pub read_back : (d : DateTime) → read_date (replace_z (write_date d)) ≡ some d
unfolding write_date read_date date_of
read_back d =
    ap read_date (
      replace_z-write_int d.wall (write_offset d.offset)
      ∙ ap (write_int d.wall) (replace_z-write_offset d.offset))
    ∙ ap date_of (read_int-write_int d.wall (write_offset d.offset))
    ∙ ap (λ o. some (record { wall = d.wall; offset = o })) (offset_of-write_offset d.offset)

abbrev pub iso : Iso
iso = record { from_iso = read_date; to_iso = write_date; read_back = read_back }

pub write_date-nonempty : (d : DateTime) → write_date d ≡ "" → ⊥
unfolding write_date write_int
write_date-nonempty d h = go d.wall h
  where
    go : (z : ℤ) → write_int z (write_offset d.offset) ≡ "" → ⊥
    go (pos n) e = cc
    go (negsuc n) e = cc
