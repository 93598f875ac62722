-- ===== src/Media/Limits.antt =====
-- internal/media/media.go: the size limits of fetch_media and send_media. A size is -1 or below where
-- it is JsonInt.negative.
use Prim.Native.String.{String}
use text.Mathlib.Text.{◌==◌ as str_eq}
use voolo_whatsapp_bridge.Common.{ℕ, Bool, true, not, ◌&&◌, ◌||◌, ltb, if◌then◌else◌}
use voolo_whatsapp_bridge.Protocol.Commands.{JsonInt, nonneg, negative}
use voolo_whatsapp_bridge.Wa.Live.Incoming.{fetchable}

-- Limits.
pub record MediaLimits : Type 0 where
  pub image_max_bytes : ℕ
  pub voice_max_seconds : ℕ
  pub voice_max_bytes : ℕ
  pub file_max_bytes : ℕ
  pub video_max_bytes : ℕ

-- MaxFetchBytes.
abbrev pub max_fetch_bytes : String → MediaLimits → ℕ
max_fetch_bytes kind l =
    if str_eq kind "image" || str_eq kind "sticker"
    then l.image_max_bytes
    else (if str_eq kind "voice"
        then l.voice_max_bytes
        else (if str_eq kind "video"
            then l.video_max_bytes
            else (if str_eq kind "document" || str_eq kind "audio" then l.file_max_bytes else 0)))

-- MaxSendBytes.
abbrev pub max_send_bytes : String → MediaLimits → ℕ
max_send_bytes kind l =
    if str_eq kind "image"
    then l.image_max_bytes
    else (if str_eq kind "voice"
        then l.voice_max_bytes
        else (if str_eq kind "video" then l.video_max_bytes else l.file_max_bytes))

-- CheckFetch.
pub data FetchCheck : Type 0 where
  may_fetch not_fetchable too_big : FetchCheck

abbrev pub too_many : JsonInt → ℕ → Bool
too_many negative limit = true
too_many (nonneg n) limit = ltb limit n

unfoldable pub check_fetch : String → JsonInt → ℕ → MediaLimits → FetchCheck
check_fetch kind size_bytes duration_s l =
    if not (fetchable kind)
    then not_fetchable
    else (if str_eq kind "voice" && ltb l.voice_max_seconds duration_s
        then too_big
        else (if too_many size_bytes (max_fetch_bytes kind l) then too_big else may_fetch))
