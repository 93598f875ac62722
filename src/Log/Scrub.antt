-- ===== src/Log/Scrub.antt =====
-- internal/logx/logx.go: secretLike and ScrubCode, for the code points of a text. A regexp for a run of n
-- or more characters of a class matches the longest such runs, so a scan from the left that counts
-- the run it is in decides whether there is a match. What ScrubCode cuts is ASCII by then, so bytes are
-- characters.
pub mod Safe
use voolo_whatsapp_bridge.Common.{
  ℕ, suc, ◌+◌, Bool, true, false, not, ◌&&◌, ◌||◌, List, [], ◌∷◌, length, take, keep, ltb, leb,
  ◌==◌, if◌then◌else◌,
}
use voolo_whatsapp_bridge.Protocol.Text.{Text, between, digit}

abbrev pub max_code : ℕ
max_code = 160

abbrev pub lower : ℕ → Bool
lower = between b'a' b'z'

abbrev pub upper : ℕ → Bool
upper = between b'A' b'Z'

abbrev pub hex_digit : ℕ → Bool
hex_digit c = digit c || (between b'A' b'F' c || between b'a' b'f' c)

-- The classes of tokenRun and, kept by codeKeep, of a code.
abbrev pub token_char : ℕ → Bool
token_char c =
    digit c || (lower c || (upper c || (c == b'/' || (c == b'_' || (c == b'=' || c == b'-')))))

abbrev pub code_char : ℕ → Bool
code_char c =
    digit c
    || (lower c
        || (upper c
            || (c == b' '
                || (c == b'_'
                    || (c == b'.'
                        || (c == b':'
                            || (c == b'/'
                                || (c == b'%'
                                    || (c == b','
                                        || (c == b'('
                                            || (c == b')' || (c == b'\'' || c == b'-'))))))))))))

-- Whether there is a run of n or more characters that pass a test, behind `cur` of them.
unfoldable pub has_run : (ℕ → Bool) → ℕ → ℕ → Text → Bool
has_run p n cur [] = leb n cur
has_run p n cur (c ∷ cs) =
    let inside = has_run p n (suc cur) cs in
    let outside = has_run p n 0 cs in if p c then inside else leb n cur || outside

-- strings.ContainsAny(s, "@+").
unfoldable pub has_address_char : Text → Bool
has_address_char [] = false
has_address_char (c ∷ cs) = c == b'@' || (c == b'+' || has_address_char cs)

-- A run of token characters: its length, and whether it has a digit, a lower and an upper case letter.
pub record Token : Type 0 where
  pub chars : ℕ
  pub has_digit : Bool
  pub has_lower : Bool
  pub has_upper : Bool

abbrev pub no_token : Token
no_token = record { chars = 0; has_digit = false; has_lower = false; has_upper = false }

abbrev pub longer : ℕ → Token → Token
longer c t = record {
  chars = suc t.chars;
  has_digit = t.has_digit || digit c;
  has_lower = t.has_lower || lower c;
  has_upper = t.has_upper || upper c;
}

abbrev pub is_secret_token : Token → Bool
is_secret_token t = leb 16 t.chars && (t.has_digit || (t.has_lower && t.has_upper))

-- The loop over the tokens.
unfoldable pub has_secret_token : Token → Text → Bool
has_secret_token t [] = is_secret_token t
has_secret_token t (c ∷ cs) =
    let inside = has_secret_token (longer c t) cs in
    let outside = has_secret_token no_token cs in
    if token_char c then inside else is_secret_token t || outside

-- secretLike.
unfoldable pub secret_like : Text → Bool
unfolding has_run has_address_char has_secret_token
secret_like s =
    has_address_char s
    || (has_run digit 5 0 s || (has_run hex_digit 16 0 s || has_secret_token no_token s))

-- strings.TrimSpace: the one space that a code can hold, and the other ASCII ones.
abbrev pub is_space : ℕ → Bool
is_space c = c == b' ' || between 9 13 c

unfoldable pub trim_left : Text → Text
trim_left [] = []
trim_left (c ∷ cs) = let rest = trim_left cs in if is_space c then rest else c ∷ cs

abbrev pub with_first : ℕ → Text → Text
with_first c [] = if is_space c then [] else c ∷ []
with_first c (d ∷ rest) = c ∷ d ∷ rest

unfoldable pub trim_right : Text → Text
trim_right [] = []
trim_right (c ∷ cs) = with_first c (trim_right cs)

abbrev pub redacted : Text
redacted = b'r' ∷ b'e' ∷ b'd' ∷ b'a' ∷ b'c' ∷ b't' ∷ b'e' ∷ b'd' ∷ []

-- ScrubCode.
abbrev pub cut : Text → Text
cut s = if ltb max_code (length s) then take max_code s else s

unfoldable pub scrub_code : Text → Text
unfolding secret_like trim_left trim_right
scrub_code s =
    if secret_like s
    then redacted
    else (let kept = keep code_char s in
        if secret_like kept then redacted else trim_right (trim_left (cut kept)))
