-- ===== src/Common/Text.antt =====
-- What the sources use of `str`. A text is the list of its code points.
use Prim.Native.Char.{code}
use Prim.Native.String.{String}
use usb_over_tailscale.Common.{
  ℕ, zero, suc, ◌+◌, ◌-◌, ◌*◌, ◌/◌, ◌%◌, ◌^◌, List, [], ◌∷◌, ◌++◌, Option, none, some, Bool, false,
  ◌&&◌, ◌||◌, ltb, leb, ◌==◌, if◌then◌else◌, is_empty,
}

-- The code points of a text literal.
abbrev pub codes : String → List ℕ
codes String.[] = []
codes (String.◌∷◌ c s) = code c ∷ codes s

-- `char::is_whitespace`
abbrev pub is_whitespace : ℕ → Bool
is_whitespace c =
    leb 9 c && leb c 13
    || (c == 32
        || (c == 0x85
            || (c == 0xa0
                || (c == 0x1680
                    || (leb 0x2000 c && leb c 0x200a
                        || (c == 0x2028
                            || (c == 0x2029 || (c == 0x202f || (c == 0x205f || c == 0x3000)))))))))

unfoldable pub trim_start : List ℕ → List ℕ
trim_start [] = []
trim_start (c ∷ cs) = let rest = trim_start cs in if is_whitespace c then rest else c ∷ cs

-- Without the last characters that pass the test, `trim_end_matches`.
unfoldable pub trim_end_by : (ℕ → Bool) → List ℕ → List ℕ
trim_end_by p [] = []
trim_end_by p (c ∷ cs) =
    let rest = trim_end_by p cs in if is_empty rest && p c then [] else c ∷ rest

unfoldable pub trim : List ℕ → List ℕ
unfolding trim_start trim_end_by
trim s = trim_end_by is_whitespace (trim_start s)

unfoldable pub strip_prefix : List ℕ → List ℕ → Option (List ℕ)
strip_prefix [] s = some s
strip_prefix (c ∷ prefix) [] = none
strip_prefix (c ∷ prefix) (d ∷ s) = if c == d then strip_prefix prefix s else none

-- `split_once(c)`
unfoldable pub split_once : ℕ → List ℕ → Option (List ℕ × List ℕ)
split_once c [] = none
split_once c (d ∷ s) =
    let later : Option (List ℕ × List ℕ) = elim (split_once c s) [
      | none ↦ none
      | some (before, after) ↦ some (d ∷ before, after)
    ] in
    if d == c then some ([], s) else later

abbrev pub is_in : ℕ → List ℕ → Bool
is_in c [] = false
is_in c (d ∷ s) = d == c || is_in c s

-- `rsplit(c).next()`: what stands behind the last `c`, or the whole.
unfoldable pub last_part : ℕ → List ℕ → List ℕ
last_part c [] = []
last_part c (d ∷ s) =
    let later = last_part c s in if is_in c s then later else if d == c then s else d ∷ s

abbrev pub is_digit : ℕ → Bool
is_digit c = leb b'0' c && leb c b'9'

unfoldable pub digits_value : ℕ → List ℕ → Option ℕ
digits_value acc [] = some acc
digits_value acc (c ∷ cs) = if is_digit c then digits_value (acc * 10 + (c - b'0')) cs else none

abbrev pub below : ℕ → Option ℕ → Option ℕ
below bound none = none
below bound (some n) = if ltb n bound then some n else none

abbrev pub parse_digits : ℕ → List ℕ → Option ℕ
parse_digits bound [] = none
parse_digits bound (c ∷ cs) = below bound (digits_value 0 (c ∷ cs))

-- `parse` into an unsigned type with `bound` values.
unfoldable pub parse_uint : ℕ → List ℕ → Option ℕ
unfolding digits_value
parse_uint bound [] = none
parse_uint bound (c ∷ cs) = if c == b'+' then parse_digits bound cs else parse_digits bound (c ∷ cs)

abbrev pub negated : Option ℕ → Option ℕ
negated none = none
negated (some n) = some ((2 ^ 32 - n) % 2 ^ 32)

-- `parse::<i32>()`, as the bits of the value.
unfoldable pub parse_i32 : List ℕ → Option ℕ
unfolding parse_uint
parse_i32 [] = none
parse_i32 (c ∷ cs) =
    if c == b'-' then negated (parse_digits (2 ^ 31 + 1) cs) else parse_uint (2 ^ 31) (c ∷ cs)

-- The decimal digits of a number of at most `fuel` digits.
abbrev pub decimal : ℕ → ℕ → List ℕ
decimal zero n = []
decimal (suc k) n =
    if ltb n 10 then (b'0' + n) ∷ [] else decimal k (n / 10) ++ ((b'0' + n % 10) ∷ [])

-- `to_string()` of an i32, from its bits.
unfoldable pub i32_text : ℕ → List ℕ
i32_text r = if ltb r (2 ^ 31) then decimal 10 r else b'-' ∷ decimal 10 (2 ^ 32 - r)
