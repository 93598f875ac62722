-- ===== src/Protocol/Text.antt =====
-- internal/protocol/commands.go: the patterns that texts in a command are held to.
-- A text is the list of its code points; texts out of encoding/json are valid UTF-8, so
-- utf8.ValidString holds of each. Every pattern is anchored at both ends. In all of them the
-- characters of a part exclude the one that ends it, so a scan from the left finds what regexp finds.
use voolo_whatsapp_bridge.Common.{
  ℕ, suc, ◌+◌, Bool, true, false, ◌&&◌, ◌||◌, List, [], ◌∷◌, length, ltb, leb, ◌==◌, if◌then◌else◌,
}

abbrev pub Text : Type 0
Text = List ℕ

-- The bytes of a code point in UTF-8, and len of a text.
abbrev pub utf8_len : ℕ → ℕ
utf8_len c = if ltb c 0x80 then 1 else (if ltb c 0x800 then 2 else (if ltb c 0x10000 then 3 else 4))

unfoldable pub byte_len : Text → ℕ
byte_len [] = 0
byte_len (c ∷ cs) = utf8_len c + byte_len cs

unfoldable pub same_text : Text → Text → Bool
same_text [] [] = true
same_text (c ∷ cs) (d ∷ ds) = (c == d) && same_text cs ds
same_text _ _ = false

abbrev pub between : ℕ → ℕ → ℕ → Bool
between lo hi c = leb lo c && leb c hi

unfoldable pub all_of : (ℕ → Bool) → Text → Bool
all_of p [] = true
all_of p (c ∷ cs) = p c && all_of p cs

abbrev pub digit : ℕ → Bool
digit = between b'0' b'9'

abbrev pub lower_hex : ℕ → Bool
lower_hex c = digit c || between b'a' b'f' c

-- storeKeyRe and hex64Re: ^[0-9a-f]{64}$
abbrev pub is_hex64 : Text → Bool
is_hex64 s = (length s == 64) && all_of lower_hex s

-- phoneRe: ^[1-9][0-9]{6,14}$
abbrev pub is_phone : Text → Bool
is_phone [] = false
is_phone (c ∷ cs) = between b'1' b'9' c && between 6 14 (length cs) && all_of digit cs

abbrev pub word_char : ℕ → Bool
word_char c =
    between b'A' b'Z' c
    || between b'a' b'z' c
    || digit c
    || (c == b'.')
    || (c == b'_')
    || (c == b'-')

-- IsMessageID: ^[A-Za-z0-9._-]{1,128}$
abbrev pub is_message_id : Text → Bool
is_message_id s = between 1 128 (length s) && all_of word_char s

-- IsPictureID: ^[A-Za-z0-9._:-]{1,64}$
abbrev pub is_picture_id : Text → Bool
is_picture_id s = between 1 64 (length s) && all_of (λ c. word_char c || (c == b':')) s

-- "@s.whatsapp.net", "@lid" and "@g.us".
abbrev pub at_user : Text
at_user =
    b'@' ∷ b's' ∷ b'.' ∷ b'w' ∷ b'h' ∷ b'a' ∷ b't' ∷ b's' ∷ b'a' ∷ b'p' ∷ b'p' ∷ b'.' ∷ b'n' ∷ b'e'
    ∷ b't' ∷ []

abbrev pub at_lid : Text
at_lid = b'@' ∷ b'l' ∷ b'i' ∷ b'd' ∷ []

abbrev pub at_group : Text
at_group = b'@' ∷ b'g' ∷ b'.' ∷ b'u' ∷ b's' ∷ []

-- How many digits a text begins with, and what comes after them.
unfoldable pub digits_first : Text → ℕ
digits_first [] = 0
digits_first (c ∷ cs) = let n = digits_first cs in if digit c then suc n else 0

unfoldable pub after_digits : Text → Text
after_digits [] = []
after_digits (c ∷ cs) = let rest = after_digits cs in if digit c then rest else c ∷ cs

-- The second number of an old group's JID and what must come after it.
unfoldable pub group_tail : Text → Bool
unfolding same_text digits_first after_digits
group_tail [] = false
group_tail (c ∷ cs) =
    same_text (c ∷ cs) at_group
    || ((c == b'-') && between 1 20 (digits_first cs) && same_text (after_digits cs) at_group)

abbrev pub user_tail : Text → Bool
user_tail s = same_text s at_user || same_text s at_lid

-- MaxJIDLen.
abbrev pub max_jid_len : ℕ
max_jid_len = 128

-- IsUserJID and IsChatJID.
unfoldable pub is_user_jid : Text → Bool
unfolding same_text digits_first after_digits
is_user_jid s =
    leb (byte_len s) max_jid_len && between 1 20 (digits_first s) && user_tail (after_digits s)

unfoldable pub is_chat_jid : Text → Bool
unfolding same_text digits_first after_digits group_tail
is_chat_jid s =
    leb (byte_len s) max_jid_len
    && between 1 20 (digits_first s)
    && (user_tail (after_digits s) || group_tail (after_digits s))

-- IsGroupJID: strings.HasSuffix(s, "@g.us").
unfoldable pub is_group_jid : Text → Bool
unfolding same_text
is_group_jid [] = false
is_group_jid (c ∷ cs) = same_text (c ∷ cs) at_group || is_group_jid cs

-- IsULID: ^[0-7][0-9A-HJKMNP-TV-Z]{25}$
abbrev pub ulid_char : ℕ → Bool
ulid_char c =
    digit c
    || between b'A' b'H' c
    || (c == b'J')
    || (c == b'K')
    || (c == b'M')
    || (c == b'N')
    || between b'P' b'T' c
    || between b'V' b'Z' c

abbrev pub is_ulid : Text → Bool
is_ulid [] = false
is_ulid (c ∷ cs) = between b'0' b'7' c && (length cs == 25) && all_of ulid_char cs

-- textOK.
abbrev pub text_ok : Text → ℕ → ℕ → Bool
text_ok s min_chars max_chars = between min_chars max_chars (length s)

-- The states of a scan for mimeRe: in the type or subtype after some characters, behind a semicolon,
-- in the name or the value of a parameter after some characters.
pub data MimeState : Type 0 where
  in_type in_subtype in_name in_value : ℕ → MimeState
  semicolon space refused_mime : MimeState

abbrev pub mime_first : ℕ → Bool
mime_first c = between b'a' b'z' c || digit c

-- [a-z0-9!#$&^_.+-]
abbrev pub mime_char : ℕ → Bool
mime_char c =
    mime_first c
    || (c == b'!')
    || (c == b'#')
    || (c == b'$')
    || (c == b'&')
    || (c == b'^')
    || (c == b'_')
    || (c == b'.')
    || (c == b'+')
    || (c == b'-')

abbrev pub name_char : ℕ → Bool
name_char c = mime_first c || (c == b'_') || (c == b'-')

abbrev pub token_next : ℕ → ℕ → Bool
token_next n c = if leb n 0 then mime_first c else (ltb n 64 && mime_char c)

abbrev pub mime_step : MimeState → ℕ → MimeState
mime_step (in_type n) c =
    if token_next n c
    then in_type (suc n)
    else (if ltb 0 n && (c == b'/') then in_subtype 0 else refused_mime)
mime_step (in_subtype n) c =
    if token_next n c
    then in_subtype (suc n)
    else (if ltb 0 n && (c == b';') then semicolon else refused_mime)
mime_step semicolon c =
    if c == b' ' then space else (if name_char c then in_name 1 else refused_mime)
mime_step space c = if name_char c then in_name 1 else refused_mime
mime_step (in_name n) c =
    if ltb n 32 && name_char c
    then in_name (suc n)
    else (if c == b'=' then in_value 0 else refused_mime)
mime_step (in_value n) c =
    if ltb n 64 && word_char c
    then in_value (suc n)
    else (if ltb 0 n && (c == b';') then semicolon else refused_mime)
mime_step refused_mime c = refused_mime

unfoldable pub mime_run : MimeState → Text → MimeState
mime_run st [] = st
mime_run st (c ∷ cs) = mime_run (mime_step st c) cs

abbrev pub mime_end : MimeState → Bool
mime_end (in_subtype n) = ltb 0 n
mime_end (in_value n) = ltb 0 n
mime_end _ = false

-- mimeRe.
unfoldable pub is_mime : Text → Bool
unfolding mime_run
is_mime s = mime_end (mime_run (in_type 0) s)
