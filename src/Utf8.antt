-- ===== src/Utf8.antt =====
-- The validation of `String::from_utf8`: the well-formed byte sequences of UTF-8.
use spmp.Prelude.{
  ◌≡◌, ℕ, Bool, true, false, ◌&&◌, if◌then◌else◌, leb, Option, none, some, List, [], ◌∷◌, Bytes,
}

-- A byte range that is still to come.
abbrev pub between : ℕ × ℕ → ℕ → Bool
between (lo, hi) b = leb lo b && leb b hi

abbrev pub tail : ℕ × ℕ
tail = (0x80, 0xBF)

-- The ranges of the bytes that follow a leading byte; `none` where no character begins with it.
abbrev pub followers : ℕ → Option (List (ℕ × ℕ))
followers b =
    if leb b 0x7F
    then some []
    else if between (0xC2, 0xDF) b
    then some (tail ∷ [])
    else if between (0xE0, 0xE0) b
    then some ((0xA0, 0xBF) ∷ tail ∷ [])
    else if between (0xED, 0xED) b
    then some ((0x80, 0x9F) ∷ tail ∷ [])
    else if between (0xE1, 0xEF) b
    then some (tail ∷ tail ∷ [])
    else if between (0xF0, 0xF0) b
    then some ((0x90, 0xBF) ∷ tail ∷ tail ∷ [])
    else if between (0xF1, 0xF3) b
    then some (tail ∷ tail ∷ tail ∷ [])
    else if between (0xF4, 0xF4) b
    then some ((0x80, 0x8F) ∷ tail ∷ tail ∷ [])
    else none

-- `due` holds the ranges that the current character still needs.
unfoldable pub utf8_from : List (ℕ × ℕ) → Bytes → Bool
utf8_from [] [] = true
utf8_from (r ∷ due) [] = false
utf8_from [] (b ∷ bs) = elim (followers b) [ none ↦ false | some due ↦ utf8_from due bs ]
utf8_from (r ∷ due) (b ∷ bs) = between r b && utf8_from due bs

unfoldable pub is_utf8 : Bytes → Bool
is_utf8 = utf8_from []

-- `String::from_utf8(bytes)`, a string being its bytes.
unfoldable pub from_utf8 : Bytes → Option Bytes
from_utf8 bytes = if is_utf8 bytes then some bytes else none

pub from_utf8_of : (b : Bytes) → is_utf8 b ≡ true → from_utf8 b ≡ some b
unfolding from_utf8
from_utf8_of b h = rw h
