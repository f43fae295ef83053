-- ===== src/Wire/Utf8.antt =====
-- The standard library's UTF-8 check. A `String` is the list of its bytes, of which `IsUtf8`
-- holds.
use edgedb_rust.Base.{
  ℕ, suc, ◌≡◌, refl, List, [], ◌∷◌, Bool, true, false, ◌&&◌, Option, none, some, leb, ltb, ◌==◌,
  if◌then◌else◌,
}

-- Between characters, or before `left` continuation bytes of which the next lies in `lo` to `hi`.
pub data Position : Type 0 where
  between : Position
  inside : (left lo hi : ℕ) → Position

first_byte : ℕ → Option Position
first_byte b =
    if ltb b 0x80
    then some between
    else if ltb b 0xc2
    then none
    else if ltb b 0xe0
    then some (inside 1 0x80 0xbf)
    else if b == 0xe0
    then some (inside 2 0xa0 0xbf)
    else if b == 0xed
    then some (inside 2 0x80 0x9f)
    else if ltb b 0xf0
    then some (inside 2 0x80 0xbf)
    else if b == 0xf0
    then some (inside 3 0x90 0xbf)
    else if ltb b 0xf4
    then some (inside 3 0x80 0xbf)
    else if b == 0xf4
    then some (inside 3 0x80 0x8f)
    else none

after_byte : ℕ → Position
after_byte (suc (suc left)) = inside (suc left) 0x80 0xbf
after_byte left = between

next_byte : Position → ℕ → Option Position
next_byte between b = first_byte b
next_byte (inside left lo hi) b = if leb lo b && leb b hi then some (after_byte left) else none

valid_from : Position → List ℕ → Bool
valid_from between [] = true
valid_from (inside left lo hi) [] = false
valid_from pos (b ∷ bs) = elim (next_byte pos b) [ none ↦ false | some q ↦ valid_from q bs ]

unfoldable pub is_utf8 : List ℕ → Bool
unfolding valid_from next_byte first_byte after_byte
is_utf8 bs = valid_from between bs

abbrev pub IsUtf8 : List ℕ → Type 0
IsUtf8 bs = is_utf8 bs ≡ true

-- `String::from_utf8(data)`
unfoldable pub from_utf8 : List ℕ → Option (List ℕ)
from_utf8 bs = if is_utf8 bs then some bs else none

-- "aé€" is valid; a lone continuation byte, an overlong form and a surrogate are not.
utf8_accepts : is_utf8 (0x61 ∷ 0xc3 ∷ 0xa9 ∷ 0xe2 ∷ 0x82 ∷ 0xac ∷ []) ≡ true
unfolding is_utf8
utf8_accepts = refl

utf8_rejects_overlong : is_utf8 (0xc0 ∷ 0x80 ∷ []) ≡ false
unfolding is_utf8
utf8_rejects_overlong = refl

utf8_rejects_surrogate : is_utf8 (0xed ∷ 0xa0 ∷ 0x80 ∷ []) ≡ false
unfolding is_utf8
utf8_rejects_surrogate = refl
