-- ===== src/Examples/StoreRuns.antt =====
-- Runs of internal/store/store.go: a store with one send, one attachment and one chat.
use Prim.Native.String.{String}
use text.Mathlib.Text.{◌==◌ as str_eq}
use voolo_whatsapp_bridge.Common.{
  ◌≤◌, ◌≡◌, ◌≢◌, ◌⊎◌, refl, true, false, [], ◌∷◌, none, some, length, ltb, arith,
}
use voolo_whatsapp_bridge.Store.Tables.{Store, ok}
use voolo_whatsapp_bridge.Store.Tables.{MediaDesc}
use voolo_whatsapp_bridge.Store.Outbox.{
  is_known, new_row, outbox_keep, reserve_outbox, outbox_known,
}
use voolo_whatsapp_bridge.Store.Outbox.Laws.{DistinctIds, newer_than, reserve_outbox_known}
use voolo_whatsapp_bridge.Store.Outbox.Bounds.{reserve_outbox_bounds}
use voolo_whatsapp_bridge.Store.Media.{put_rows, put_media, row_of, get_media}
use voolo_whatsapp_bridge.Store.Media.Laws.{put_media_atomic, get_media-put_media}
use voolo_whatsapp_bridge.Store.Chats.{chat_at, resolve_lid_chat}
use voolo_whatsapp_bridge.Store.Chats.Laws.{resolve_lid_chat_lem}

abbrev photo : String → String → MediaDesc
photo chat id = record {
  chat_jid = chat;
  message_id = id;
  kind = "image";
  mime = "image/jpeg";
  size_bytes = 100;
  duration_s = 0;
  direct_path = "/v";
  media_key = 1 ∷ [];
  file_sha256 = 2 ∷ [];
  file_enc_sha256 = 3 ∷ [];
  msg_ts = 1000;
}

abbrev store : Store
store = record {
  closed = false;
  locked = true;
  sent = new_row "o1" 1000 ∷ [];
  media = photo "7@lid" "m1" ∷ [];
  chats = ("7@lid", true) ∷ [];
}

sent-DistinctIds : DistinctIds store.sent
sent-DistinctIds id = ground arith

reserve_example :
    let (answer, s') = reserve_outbox false false "o2" 2000 store in
    DistinctIds s'.sent
    × (answer ≡ ok false → (is_known "o2" store.sent ≡ false) × (length s'.sent ≤ outbox_keep))
    × (answer ≡ ok true → is_known "o2" store.sent ≡ true)
    × (is_known "o2" store.sent ≡ true → s' ≡ store)
    × (is_known "o2" store.sent ≡ true → store.closed ≡ false → false ≡ false → answer ≡ ok true)
reserve_example = reserve_outbox_bounds false false "o2" 2000 store sent-DistinctIds

taken : (reserve_outbox false false "o2" 2000 store).0 ≡ ok false
unfolding reserve_outbox is_known
taken = refl

known_example :
    (outbox_known false "o2" (reserve_outbox false false "o2" 2000 store).1).0
    ≡ ok (ltb (newer_than 2000 store.sent) outbox_keep)
known_example = reserve_outbox_known "o2" 2000 store taken

atomic_example :
    let (answer, s') =
      put_media false (some 1) false (photo "8@s" "m2" ∷ photo "9@s" "m3" ∷ []) store in
    ((answer ≡ ok tt)
      × (put_rows none (photo "8@s" "m2" ∷ photo "9@s" "m3" ∷ []) store.media ≡ some s'.media))
    ⊎ ((answer ≢ ok tt) × (s' ≡ store))
atomic_example =
    put_media_atomic false (some 1) false (photo "8@s" "m2" ∷ photo "9@s" "m3" ∷ []) store

stored_example :
    let (answer, s') =
      put_media false none false (photo "8@s" "m2" ∷ photo "9@s" "m3" ∷ []) store in
    (answer ≡ ok tt) × ((get_media false false "8@s" "m2" s').0 ≡ ok (some (photo "8@s" "m2")))
stored_example =
    get_media-put_media (photo "8@s" "m2" ∷ photo "9@s" "m3" ∷ []) store "8@s" "m2"
      (photo "8@s" "m2") refl refl

none_there : row_of "7@s" "m1" store.media ≡ none
unfolding row_of
none_there = refl

resolve_example :
    let (answer, s') = resolve_lid_chat false "7@lid" "7@s" store in
    (answer ≡ ok tt)
    × (chat_at "7@lid" s'.chats ≢ some true)
    × (chat_at "7@s" s'.chats ≢ none)
    × ((k : String)
        → str_eq "7@lid" k ≡ false
        → str_eq "7@s" k ≡ false
        → chat_at k s'.chats ≡ chat_at k store.chats)
resolve_example = resolve_lid_chat_lem "7@lid" "7@s" store refl
