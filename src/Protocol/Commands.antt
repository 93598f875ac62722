-- ===== src/Protocol/Commands.antt =====
-- internal/protocol/commands.go: the payloads of the commands, and the ceilings on them.
-- An optional member that is absent is the empty text or 0, as encoding/json leaves it. Numbers that
-- may be negative in the source are of the type JsonInt below: what validate asks of them is a range.
use voolo_whatsapp_bridge.Common.{ℕ, Bool, List, Option, none, some}
use voolo_whatsapp_bridge.Protocol.Text.{Text}

-- A JSON integer, as far as its range tests see it: a negative one has no value.
pub data JsonInt : Type 0 where
  nonneg : ℕ → JsonInt
  negative : JsonInt

-- The ceilings.
abbrev pub max_history_days : ℕ
max_history_days = 90

abbrev pub max_history_per_chat : ℕ
max_history_per_chat = 20000

abbrev pub max_image_bytes : ℕ
max_image_bytes = 16777216

abbrev pub max_voice_seconds : ℕ
max_voice_seconds = 3600

abbrev pub max_voice_bytes : ℕ
max_voice_bytes = 33554432

abbrev pub max_file_bytes : ℕ
max_file_bytes = 104857600

abbrev pub default_file_max_bytes : ℕ
default_file_max_bytes = 33554432

abbrev pub max_video_bytes : ℕ
max_video_bytes = 67108864

abbrev pub default_video_max_bytes : ℕ
default_video_max_bytes = 16777216

abbrev pub max_video_seconds : ℕ
max_video_seconds = 86400

abbrev pub max_video_side : ℕ
max_video_side = 16384

abbrev pub max_text_chars : ℕ
max_text_chars = 65536

abbrev pub max_mark_read : ℕ
max_mark_read = 50

abbrev pub max_device_name_chars : ℕ
max_device_name_chars = 32

abbrev pub max_path_bytes : ℕ
max_path_bytes = 4096

abbrev pub max_file_name_chars : ℕ
max_file_name_chars = 255

abbrev pub max_caption_chars : ℕ
max_caption_chars = 65536

abbrev pub max_quoted_text_chars : ℕ
max_quoted_text_chars = 4096

-- Limits.
pub record Limits : Type 0 where
  pub history_days : JsonInt
  pub history_max_per_chat : JsonInt
  pub image_max_bytes : JsonInt
  pub voice_max_seconds : JsonInt
  pub voice_max_bytes : Option JsonInt
  pub video_max_bytes : Option JsonInt
  pub file_max_bytes : Option JsonInt

abbrev pub or_default : ℕ → Option JsonInt → JsonInt
or_default d none = nonneg d
or_default d (some n) = n

-- VideoBytes, FileBytes and VoiceBytes.
abbrev pub video_bytes : Limits → JsonInt
video_bytes l = or_default default_video_max_bytes l.video_max_bytes

abbrev pub file_bytes : Limits → JsonInt
file_bytes l = or_default default_file_max_bytes l.file_max_bytes

abbrev pub voice_bytes : Limits → JsonInt
voice_bytes l = or_default max_voice_bytes l.voice_max_bytes

-- Init.
pub record Init : Type 0 where
  pub store_key : Text
  pub store_dir : Text
  pub media_dir : Text
  pub device_name : Text
  pub limits : Limits

-- Quote.
pub record Quote : Type 0 where
  pub quoted_message_id : Text
  pub quoted_sender_jid : Text
  pub quoted_text : Text
  pub forwarded : Bool

-- SendText.
pub record SendText : Type 0 where
  pub chat_jid : Text
  pub text : Text
  pub outbox_id : Text
  pub quote : Quote

-- SendMedia.
pub record SendMedia : Type 0 where
  pub chat_jid : Text
  pub outbox_id : Text
  pub kind : Text
  pub path : Text
  pub key : Text
  pub sha256 : Text
  pub mime : Text
  pub caption : Text
  pub file_name : Text
  pub duration_s : JsonInt
  pub width : JsonInt
  pub height : JsonInt
  pub waveform : Text
  pub quote : Quote

-- MarkRead.
pub record MarkRead : Type 0 where
  pub chat_jid : Text
  pub message_ids : List Text
  pub sender_jid : Text

-- A decoded payload: the types that validate tells apart.
pub data Command : Type 0 where
  init : Init → Command
  pair_phone : Text → Command
  send_text : SendText → Command
  send_media : SendMedia → Command
  mark_read : MarkRead → Command
  fetch_media : Text → Text → Command  -- chatJid, messageId
  set_pin : Text → Bool → Command  -- chatJid, pinned
  fetch_avatar : Text → Text → Command  -- jid, knownId
  ack : JsonInt → Command  -- seq
  no_payload : Command
