-- ===== src/Examples/FetchRuns.antt =====
-- A run of internal/wa/commands.go: an image that is fetched.
use voolo_whatsapp_bridge.Common.{◌≡◌, false, true, [], ◌∷◌, none, some}
use voolo_whatsapp_bridge.Store.Tables.{Store, MediaDesc, ok}
use voolo_whatsapp_bridge.Store.Media.{get_media}
use voolo_whatsapp_bridge.Media.Limits.{MediaLimits}
use voolo_whatsapp_bridge.Media.Handoff.{Library}
use voolo_whatsapp_bridge.Wa.Fetch.{FetchWorld, downloaded, fetch_media}
use voolo_whatsapp_bridge.Wa.Fetch.Limited.{Limited, fetch_media-Limited}

abbrev image : MediaDesc
image = record {
  chat_jid = "a@s";
  message_id = "M1";
  kind = "image";
  mime = "image/png";
  size_bytes = 3;
  duration_s = 0;
  direct_path = "/v";
  media_key = 1 ∷ [];
  file_sha256 = [];
  file_enc_sha256 = [];
  msg_ts = 1000;
}

abbrev store : Store
store = record { closed = false; locked = true; sent = []; media = image ∷ []; chats = [] }

abbrev limits : MediaLimits
limits = record {
  image_max_bytes = 10;
  voice_max_seconds = 60;
  voice_max_bytes = 10;
  file_max_bytes = 10;
  video_max_bytes = 10;
}

abbrev library : Library
library = record {
  clean = λ t. t;
  dir_of = λ t. t;
  base_of = λ t. t;
  join = λ d n. n;
  hex = λ b. b;
  unhex = some;
  gcm_seal = λ key nonce p. p;
  gcm_open = λ key nonce s. some s;
  sha256 = λ p. p;
}

abbrev world : FetchWorld
world = record {
  get_fails = false;
  second_fails = false;
  refusal = none;
  slot = true;
  download = downloaded (1 ∷ 2 ∷ 3 ∷ []);
  seal_fails = false;
  seal_key = [];
  nonce = [];
  name = [];
}

fetch_media-Limited_example :
    Limited limits []
      (λ d. (get_media false false "a@s" "M1" store).0 ≡ ok (some d))
      (fetch_media library limits [] world "C1" "M1" "a@s" store [])
fetch_media-Limited_example = fetch_media-Limited library limits [] world "C1" "a@s" "M1" store []
