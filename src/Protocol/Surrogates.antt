-- ===== src/Protocol/Surrogates.antt =====
-- internal/protocol/commands.go, loneSurrogate: escapes of half a surrogate pair in raw JSON.
-- The index moves only forward, by the loop's own step and by a number of bytes that the body adds;
-- `skip` is how many bytes it has still to pass over.
pub mod Pairs
use voolo_whatsapp_bridge.Common.{
  ℕ, zero, suc, ◌+◌, ◌*◌, ◌-◌, Bool, true, false, not, ◌&&◌, ◌||◌, List, [], ◌∷◌, Option, none,
  some, drop, leb, ◌==◌, if◌then◌else◌,
}
use voolo_whatsapp_bridge.Protocol.Text.{between, digit}

-- The value of a hexadecimal digit.
abbrev pub nibble : ℕ → Option ℕ
nibble c =
    if digit c
    then some (c - b'0')
    else (if between b'a' b'f' c
        then some (c - b'a' + 10)
        else (if between b'A' b'F' c then some (c - b'A' + 10) else none))

abbrev pub shift_in : Option ℕ → Option ℕ → Option ℕ
shift_in (some r) (some v) = some (r * 16 + v)
shift_in _ _ = none

-- The four digits of an escape.
abbrev pub number4 : ℕ → ℕ → ℕ → ℕ → Option ℕ
number4 a b c d = shift_in (shift_in (shift_in (nibble a) (nibble b)) (nibble c)) (nibble d)

-- hex4 at the front of the remaining bytes.
unfoldable pub hex4 : List ℕ → Option ℕ
hex4 (x ∷ y ∷ a ∷ b ∷ c ∷ d ∷ rest) = if (x == b'\\') && (y == b'u') then number4 a b c d else none
hex4 _ = none

unfoldable pub is_high : ℕ → Bool
is_high = between 0xD800 0xDBFF

unfoldable pub is_low : ℕ → Bool
is_low = between 0xDC00 0xDFFF

-- What an escape at the front comes to: `bare` that it has to be answered with true, else how many
-- more bytes to pass over.
pub data Move : Type 0 where
  bare : Move
  over : ℕ → Move

abbrev pub is_low_escape : Option ℕ → Bool
is_low_escape none = false
is_low_escape (some r) = is_low r

abbrev pub unit_move : ℕ → Option ℕ → Move
unit_move r next =
    if is_high r
    then (if is_low_escape next then over 11 else bare)
    else (if is_low r then bare else over 5)

abbrev pub escape_move : Option ℕ → Option ℕ → Move
escape_move none next = over 1
escape_move (some r) next = unit_move r next

-- The loop, `skip` bytes before its next look.
unfoldable pub scan : ℕ → List ℕ → Bool
unfolding hex4 is_high is_low
scan skip [] = false
scan (suc n) (c ∷ cs) = scan n cs
scan zero (c ∷ cs) =
    if c == b'\\'
    then elim (escape_move (hex4 (c ∷ cs)) (hex4 (drop 6 (c ∷ cs)))) [
      | bare ↦ true
      | over n ↦ scan n cs
    ]
    else scan 0 cs

-- loneSurrogate.
unfoldable pub lone_surrogate : List ℕ → Bool
unfolding scan
lone_surrogate raw = scan 0 raw
