-- ===== src/Protocol/Validate.antt =====
-- internal/protocol/commands.go: validate, and what it calls.
-- filepath.IsAbs and filepath.Clean, which depend on the platform, are arguments.
pub mod Accepted
use voolo_whatsapp_bridge.Common.{
  ℕ, ◌+◌, ◌*◌, ◌-◌, Bool, true, false, not, ◌&&◌, ◌||◌, List, [], ◌∷◌, ◌++◌, Option, none, some,
  length, ltb, leb, ◌==◌, if◌then◌else◌,
}
use voolo_whatsapp_bridge.Protocol.Text.{
  Text, byte_len, same_text, between, all_of, digit, lower_hex, is_hex64, is_phone, is_message_id,
  is_picture_id, is_user_jid, is_chat_jid, is_group_jid, is_ulid, text_ok, is_mime,
}
use voolo_whatsapp_bridge.Protocol.Commands.{
  JsonInt, nonneg, negative, max_history_days, max_history_per_chat, max_image_bytes,
  max_voice_seconds, max_voice_bytes, max_file_bytes, max_video_bytes, max_video_seconds,
  max_video_side, max_text_chars, max_mark_read, max_device_name_chars, max_path_bytes,
  max_file_name_chars, max_caption_chars, max_quoted_text_chars, Limits, Init, Quote, SendText,
  SendMedia, MarkRead, Command, init, pair_phone, send_text, send_media, mark_read, fetch_media,
  set_pin, fetch_avatar, ack, no_payload,
}

-- The errors: BadRequest, without its reason, and PhoneInvalid. Every test of validate but that of the
-- phone fails with the former, so tests that follow each other stand in one.
pub data Refused : Type 0 where
  bad phone_invalid : Refused

-- What validate comes to: the command with its paths cleaned, or an error.
pub data Checked {ℓ} (A : Type ℓ) : Type ℓ where
  accepted : A → Checked A
  refused : Refused → Checked A

unfoldable pub and_then {ℓ κ} : {A : Type ℓ} {B : Type κ} → Checked A → (A → Checked B) → Checked B
and_then (accepted a) f = f a
and_then (refused r) f = refused r

-- if !test { return bad(...) }
abbrev pub require : Bool → Checked (Unit {0})
require true = accepted tt
require false = refused bad

abbrev pub is_empty : Text → Bool
is_empty [] = true
is_empty (c ∷ cs) = false

-- lo <= n && n <= hi
abbrev pub in_range : ℕ → ℕ → JsonInt → Bool
in_range lo hi (nonneg n) = between lo hi n
in_range lo hi negative = false

-- A limit that may be absent.
abbrev pub in_range_if : ℕ → Option JsonInt → Bool
in_range_if hi none = true
in_range_if hi (some n) = in_range 1 hi n

-- unicode.IsControl: the category Cc.
abbrev pub is_control : ℕ → Bool
is_control c = ltb c 0x20 || between 0x7f 0x9f c

-- The pairs of hexadecimal digits, as hex.DecodeString reads them.
abbrev pub hex_value : ℕ → ℕ
hex_value c = if digit c then c - b'0' else c - b'a' + 10

unfoldable pub hex_pairs : Text → List ℕ
hex_pairs [] = []
hex_pairs (c ∷ []) = []
hex_pairs (c ∷ d ∷ rest) = (hex_value c * 16 + hex_value d) ∷ hex_pairs rest

-- WaveformBytes.
unfoldable pub waveform_bytes : Text → Option (List ℕ)
unfolding hex_pairs all_of
waveform_bytes s =
    if (length s == 128) && all_of lower_hex s
    then (if all_of (λ v. leb v 100) (hex_pairs s) then some (hex_pairs s) else none)
    else none

-- Whether the pieces of a path between slashes and backslashes, from a piece of which `dots` says
-- what was read, include "..": 0 for nothing, 1 and 2 for so many dots, 3 for anything else.
abbrev pub is_slash : ℕ → Bool
is_slash c = (c == b'/') || (c == b'\\')

abbrev pub more_dots : ℕ → ℕ → ℕ
more_dots dots c = if (c == b'.') && ltb dots 2 then dots + 1 else 3

unfoldable pub has_parent : ℕ → Text → Bool
has_parent dots [] = dots == 2
has_parent dots (c ∷ cs) =
    let next = has_parent 0 cs in
    let same_piece = has_parent (more_dots dots c) cs in
    if is_slash c then (dots == 2) || next else same_piece

-- validQuote.
unfoldable pub valid_quote : Quote → Bool
valid_quote q =
    (is_empty q.quoted_message_id || is_message_id q.quoted_message_id)
    && ((is_empty q.quoted_sender_jid && is_empty q.quoted_text)
        || not (is_empty q.quoted_message_id))
    && (is_empty q.quoted_sender_jid || is_user_jid q.quoted_sender_jid)
    && (is_empty q.quoted_text || text_ok q.quoted_text 1 max_quoted_text_chars)
    && not (q.forwarded && not (is_empty q.quoted_message_id))

-- The range tests of validate on an init's limits.
unfoldable pub valid_limits : Limits → Bool
valid_limits l =
    in_range 1 max_history_days l.history_days
    && in_range 1 max_history_per_chat l.history_max_per_chat
    && in_range 1 max_image_bytes l.image_max_bytes
    && in_range 1 max_voice_seconds l.voice_max_seconds
    && in_range_if max_voice_bytes l.voice_max_bytes
    && in_range_if max_video_bytes l.video_max_bytes
    && in_range_if max_file_bytes l.file_max_bytes

-- The kinds of send_media.
abbrev pub image : Text
image = b'i' ∷ b'm' ∷ b'a' ∷ b'g' ∷ b'e' ∷ []

abbrev pub voice : Text
voice = b'v' ∷ b'o' ∷ b'i' ∷ b'c' ∷ b'e' ∷ []

abbrev pub file : Text
file = b'f' ∷ b'i' ∷ b'l' ∷ b'e' ∷ []

abbrev pub video : Text
video = b'v' ∷ b'i' ∷ b'd' ∷ b'e' ∷ b'o' ∷ []

abbrev pub is_kind : Text → Bool
is_kind k = same_text k image || same_text k voice || same_text k file || same_text k video

abbrev pub is_zero : JsonInt → Bool
is_zero n = in_range 0 0 n

-- The tests of the file name of an attachment.
unfoldable pub valid_file_name : Text → Bool
valid_file_name n =
    is_empty n
    || (text_ok n 1 max_file_name_chars
        && all_of (λ c. not (is_slash c) && not (c == 0)) n
        && not (same_text n (b'.' ∷ []))
        && not (same_text n (b'.' ∷ b'.' ∷ []))
        && all_of (λ c. not (is_control c)) n)

unfoldable pub is_some {ℓ} : {A : Type ℓ} → Option A → Bool
is_some none = false
is_some (some a) = true

-- What validate asks of a send_media before its path, and after it.
unfoldable pub valid_facts : SendMedia → Bool
valid_facts c =
    is_chat_jid c.chat_jid
    && is_ulid c.outbox_id
    && is_kind c.kind
    && (same_text c.kind video || (is_zero c.duration_s && is_zero c.width && is_zero c.height))
    && (is_empty c.waveform || (same_text c.kind voice && is_some (waveform_bytes c.waveform)))
    && in_range 0 max_video_seconds c.duration_s
    && in_range 0 max_video_side c.width
    && in_range 0 max_video_side c.height

unfoldable pub valid_content : SendMedia → Bool
valid_content c =
    is_hex64 c.key
    && is_hex64 c.sha256
    && is_mime c.mime
    && (is_empty c.caption || text_ok c.caption 1 max_caption_chars)
    && valid_file_name c.file_name
    && valid_quote c.quote

unfoldable pub all_message_ids : List Text → Bool
all_message_ids [] = true
all_message_ids (id ∷ ids) = is_message_id id && all_message_ids ids

unfoldable pub valid_mark_read : MarkRead → Bool
valid_mark_read c =
    is_chat_jid c.chat_jid
    && between 1 max_mark_read (length c.message_ids)
    && all_message_ids c.message_ids
    && (is_empty c.sender_jid || is_user_jid c.sender_jid)
    && not (is_group_jid c.chat_jid && is_empty c.sender_jid)

abbrev pub valid_device_name : Text → Bool
valid_device_name n = text_ok n 1 max_device_name_chars && all_of (λ c. not (is_control c)) n

-- An init with its folders cleaned, if every test passed.
abbrev pub init_with : Bool → Checked Text → Checked Text → Bool → Bool → Init → Checked Init
init_with true (accepted store_dir) (accepted media_dir) true true c =
    accepted (record c { store_dir = store_dir; media_dir = media_dir })
init_with _ _ _ _ _ c = refused bad

module _ (is_abs : Text → Bool) (clean : Text → Text) where
  -- cleanAbs.
  unfoldable pub clean_abs : Text → Checked Text
  clean_abs p =
      if is_empty p
        || ltb max_path_bytes (byte_len p)
        || not (all_of (λ c. not (c == 0)) p)
        || not (is_abs p)
        || has_parent 0 p
      then refused bad
      else accepted (clean p)

  -- The tests of an init: those of the key, the two folders, and of the name and the limits.
  unfoldable pub validate_init : Init → Checked Init
  validate_init c =
      init_with (is_hex64 c.store_key) (clean_abs c.store_dir) (clean_abs c.media_dir)
        (valid_device_name c.device_name) (valid_limits c.limits) c

  unfoldable pub validate_media : SendMedia → Checked SendMedia
  unfolding and_then
  validate_media c = and_then (require (valid_facts c)) λ _.
      and_then (clean_abs c.path)
        λ path. and_then (require (valid_content c)) λ _. accepted (record c { path = path })

  -- validate.
  unfoldable pub validate : Command → Checked Command
  unfolding and_then validate_init validate_media
  validate (init c) = and_then (validate_init c) λ c'. accepted (init c')
  validate (pair_phone phone) =
      if is_phone phone then accepted (pair_phone phone) else refused phone_invalid
  validate (send_text c) =
      and_then
        (require (
          is_chat_jid c.chat_jid
          && is_ulid c.outbox_id
          && text_ok c.text 1 max_text_chars
          && valid_quote c.quote))
        λ _. accepted (send_text c)
  validate (send_media c) = and_then (validate_media c) λ c'. accepted (send_media c')
  validate (mark_read c) = and_then (require (valid_mark_read c)) λ _. accepted (mark_read c)
  validate (fetch_media chat id) =
      and_then (require (is_chat_jid chat && is_message_id id)) λ _. accepted (fetch_media chat id)
  validate (set_pin chat pinned) =
      and_then (require (is_chat_jid chat)) λ _. accepted (set_pin chat pinned)
  validate (fetch_avatar jid known) =
      and_then (require (is_chat_jid jid && (is_empty known || is_picture_id known)))
        λ _. accepted (fetch_avatar jid known)
  validate (ack seq) =
      and_then (require (elim seq [ nonneg n ↦ leb 1 n | negative ↦ false ]))
        λ _. accepted (ack seq)
  validate no_payload = accepted no_payload
