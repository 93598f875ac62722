-- ===== src/Wa/Fetch.antt =====
-- internal/wa/commands.go, fetchMedia and voiceDuration. The store, the limits, the Ogg duration and Seal
-- are those of Store.Media and Media; what DownloadMediaWithPath answers, whether the slot of
-- fetchSem comes before the session ends, and the random bytes of Seal are arguments.
pub mod Limited
use Prim.Native.String.{String}
use text.Mathlib.Text.{◌==◌ as str_eq}
use voolo_whatsapp_bridge.Common.{
  ℕ, ◌+◌, max, Bool, true, false, not, ◌||◌, List, [], ◌∷◌, length, Option, none, some, ltb, leb,
  if◌then◌else◌,
}
use voolo_whatsapp_bridge.Protocol.Text.{Text}
use voolo_whatsapp_bridge.Protocol.Commands.{nonneg}
use voolo_whatsapp_bridge.Protocol.Events.{
  ErrorCode, store_io, unknown_message, media_unavailable, media_too_large, internal,
}
use voolo_whatsapp_bridge.Store.Tables.{Store, MediaDesc, Result, ok, err_closed, io_error}
use voolo_whatsapp_bridge.Store.Media.{get_media}
use voolo_whatsapp_bridge.Media.Limits.{
  MediaLimits, FetchCheck, may_fetch, not_fetchable, too_big, check_fetch,
}
use voolo_whatsapp_bridge.Media.Ogg.{ogg_duration_seconds}
use voolo_whatsapp_bridge.Media.Handoff.{Library, Folder, Sealed, seal}
use voolo_whatsapp_bridge.Wa.Live.Incoming.{fetchable}

-- MediaReady.
pub record MediaReady : Type 0 where
  pub reply_to : String
  pub message_id : String
  pub path : Text
  pub key : Text
  pub sha256 : Text
  pub mime : String
  pub size_bytes : ℕ
  pub duration_s : ℕ

-- What fetch_media answers: nothing when the session ends while it waits.
pub data FetchAnswer : Type 0 where
  no_answer : FetchAnswer
  refused : ErrorCode → FetchAnswer
  media_ready : MediaReady → FetchAnswer

-- What DownloadMediaWithPath answers: the bytes, or an error with its DownloadErrorCode.
pub data Download : Type 0 where
  downloaded : List ℕ → Download
  download_failed : ErrorCode → Download

pub record FetchWorld : Type 0 where
  pub get_fails : Bool  -- the first query of GetMedia, and the second
  pub second_fails : Bool
  pub refusal : Option ErrorCode  -- the code with which ready refuses, if it does
  pub slot : Bool
  pub download : Download
  pub seal_fails : Bool
  pub seal_key : List ℕ
  pub nonce : List ℕ
  pub name : List ℕ

-- VoiceDurationMargin and voiceDuration.
abbrev pub voice_duration_margin : ℕ
voice_duration_margin = 2

unfoldable pub voice_duration : ℕ → ℕ → ℕ
voice_duration declared file =
    if leb file 0 || ltb (file + voice_duration_margin) declared then max declared file else file

abbrev pub fetched_duration : MediaDesc → List ℕ → ℕ
fetched_duration d bytes =
    if str_eq d.kind "voice"
    then voice_duration d.duration_s (ogg_duration_seconds bytes)
    else d.duration_s

abbrev pub may : FetchCheck → Bool
may may_fetch = true
may check = false

module _ (lib : Library) (lim : MediaLimits) (dir : Text) (w : FetchWorld)
    (id message_id : String) where
  -- Seal and the answer.
  abbrev pub sealed_answer : MediaDesc → List ℕ → Folder → FetchAnswer × Folder
  sealed_answer d bytes files =
      let (s, files') = seal lib w.seal_key w.nonce w.name dir bytes files in
      if w.seal_fails then (refused internal, files) else (
        media_ready (record {
          reply_to = id;
          message_id = message_id;
          path = s.path;
          key = s.key;
          sha256 = s.sha256;
          mime = d.mime;
          size_bytes = s.size_bytes;
          duration_s = fetched_duration d bytes;
        }),
        files',
      )

  abbrev pub after_download : MediaDesc → Download → Folder → FetchAnswer × Folder
  after_download d (download_failed code) files = (refused code, files)
  after_download d (downloaded bytes) files =
      if may (check_fetch d.kind (nonneg (length bytes)) (fetched_duration d bytes) lim)
      then sealed_answer d bytes files
      else (refused media_too_large, files)

  abbrev pub when_ready : MediaDesc → Option ErrorCode → Folder → FetchAnswer × Folder
  when_ready d (some code) files = (refused code, files)
  when_ready d none files = if w.slot then after_download d w.download files else (no_answer, files)

  abbrev pub found : Result (Option MediaDesc) → Folder → FetchAnswer × Folder
  found (ok none) files = (refused unknown_message, files)
  found (ok (some d)) files =
      if not (fetchable d.kind)
      then (refused media_unavailable, files)
      else (if may (check_fetch d.kind (nonneg d.size_bytes) d.duration_s lim)
          then when_ready d w.refusal files
          else (refused media_too_large, files))
  found result files = (refused store_io, files)

  -- fetchMedia, with the store as GetMedia leaves it.
  unfoldable pub fetch_media : String → Store → Folder → FetchAnswer × Folder
  unfolding check_fetch voice_duration seal get_media
  fetch_media chat st files =
      found (get_media w.get_fails w.second_fails chat message_id st).0 files
