-- ===== src/Wa/Fetch/Limited.antt =====
-- What fetchMedia of internal/wa/commands.go hands over keeps the limits.
use Prim.Native.String.{String}
use text.Mathlib.Text.{◌==◌ as str_eq}
use voolo_whatsapp_bridge.Common.{
  ℕ, suc, by_test_true, ◌+◌, ◌≤◌, ◌≡◌, refl, sym, subst, Bool, true, false, not, ◌&&◌, ◌||◌, List,
  length, Option, none, some, ltb, leb, arith, by_test, if◌then◌else◌,
}
use voolo_whatsapp_bridge.Protocol.Text.{Text}
use voolo_whatsapp_bridge.Protocol.Commands.{nonneg}
use voolo_whatsapp_bridge.Protocol.Events.{ErrorCode}
use voolo_whatsapp_bridge.Store.Tables.{Store, MediaDesc, Result, ok, err_closed, io_error}
use voolo_whatsapp_bridge.Store.Media.{get_media}
use voolo_whatsapp_bridge.Media.Limits.{
  MediaLimits, may_fetch, not_fetchable, too_big, check_fetch, max_fetch_bytes,
}
use voolo_whatsapp_bridge.Media.Ogg.{ogg_duration_seconds}
use voolo_whatsapp_bridge.Media.Handoff.{Library, Folder, seal}
use voolo_whatsapp_bridge.Wa.Live.Incoming.{fetchable}
use voolo_whatsapp_bridge.Wa.Fetch.{
  FetchAnswer, media_ready, Download, downloaded, download_failed, FetchWorld, voice_duration,
  fetched_duration, may, after_download, when_ready, found, fetch_media,
}

-- What check_fetch lets through.
pub record Within (lim : MediaLimits) (kind : String) (size duration : ℕ) : Type 0 where
  pub kind_ok : fetchable kind ≡ true
  pub size_ok : size ≤ max_fetch_bytes kind lim
  pub voice_ok : str_eq kind "voice" ≡ true → duration ≤ lim.voice_max_seconds

passed_all :
    (a b c : Bool)
    → may (if a then not_fetchable else (if b then too_big else (if c then too_big else may_fetch)))
      ≡ true
    → (a ≡ false) × (b ≡ false) × (c ≡ false)
passed_all true b c e = ground arith
passed_all false true c e = ground arith
passed_all false false true e = ground arith
passed_all false false false e = (refl, refl, refl)

true_of_not : (b : Bool) → not b ≡ false → b ≡ true
true_of_not true e = refl
true_of_not false e = ground arith

and_false_right : (a b : Bool) → a ≡ true → (a && b) ≡ false → b ≡ false
and_false_right true b v e = e
and_false_right false b v e = ground arith

check_fetch-Within :
    (lim : MediaLimits) (kind : String) (size duration : ℕ)
    → may (check_fetch kind (nonneg size) duration lim) ≡ true
    → Within lim kind size duration
unfolding check_fetch
check_fetch-Within lim kind size duration e =
    let (a, b, c) =
      passed_all (not (fetchable kind)) (str_eq kind "voice" && ltb lim.voice_max_seconds duration)
        (ltb (max_fetch_bytes kind lim) size) e in
    record {
      kind_ok = true_of_not (fetchable kind) a;
      size_ok = ground (arith, c);
      voice_ok = λ v. ground (arith, and_false_right _ _ v b);
    }

-- The duration that is capped is not much less than the sender declared, and no less than the file says.
voice_duration_floor :
    (declared file : ℕ)
    → (declared ≤ voice_duration declared file + 2) × (file ≤ voice_duration declared file)
unfolding voice_duration
voice_duration_floor declared file =
    by_test (λ n. (declared ≤ n + 2) × (file ≤ n)) (leb file 0 || ltb (file + 2) declared)
      (λ e. (omega arith, omega arith)) (λ e. (close_enough (leb file 0) e, omega arith))
  where
    close_enough : (z : Bool) → (z || ltb (file + 2) declared) ≡ false → declared ≤ file + 2
    close_enough true e = ground arith
    close_enough false e = ground (arith, e)

-- What fetchMedia may leave: a file with an answer that keeps the limits, or the folder as it was.
abbrev pub Limited : MediaLimits → Folder → (MediaDesc → Type 0) → FetchAnswer × Folder → Type 0
Limited lim files Known (media_ready r, files') =
    (d : MediaDesc) × Known d
    × Within lim d.kind r.size_bytes r.duration_s
    × (str_eq d.kind "voice" ≡ true → d.duration_s ≤ r.duration_s + 2)
    × (length files' ≡ suc (length files))
Limited lim files Known (_, files') = files' ≡ files

module _ (lib : Library) (lim : MediaLimits) (dir : Text) (w : FetchWorld) (id message_id : String)
    (Known : MediaDesc → Type 0) where
  declared_kept :
      (d : MediaDesc) (bytes : List ℕ)
      → str_eq d.kind "voice" ≡ true
      → d.duration_s ≤ fetched_duration d bytes + 2
  declared_kept d bytes v =
      subst (λ n. d.duration_s ≤ n + 2) (sym (by_test_true (str_eq d.kind "voice") _ _ v))
        (voice_duration_floor d.duration_s (ogg_duration_seconds bytes)).0

  after_download-Limited :
      (d : MediaDesc) (l : Download) (files : Folder)
      → Known d
      → Limited lim files Known (after_download lib lim dir w id message_id d l files)
  unfolding seal
  after_download-Limited d (download_failed code) files k = refl
  after_download-Limited d (downloaded bytes) files k =
      by_test (Limited lim files Known)
        (may (check_fetch d.kind (nonneg (length bytes)) (fetched_duration d bytes) lim))
        (λ e.
          by_test (Limited lim files Known) w.seal_fails (λ f. refl)
            (λ f. (
              d,
              k,
              check_fetch-Within lim d.kind (length bytes) (fetched_duration d bytes) e,
              declared_kept d bytes,
              refl,
            )))
        (λ e. refl)

  when_ready-Limited :
      (d : MediaDesc) (o : Option ErrorCode) (files : Folder)
      → Known d
      → Limited lim files Known (when_ready lib lim dir w id message_id d o files)
  when_ready-Limited d (some code) files k = refl
  when_ready-Limited d none files k =
      by_test (Limited lim files Known) w.slot (λ e. after_download-Limited d w.download files k)
        (λ e. refl)

  found-Limited :
      (r : Result (Option MediaDesc)) (files : Folder)
      → ((d : MediaDesc) → r ≡ ok (some d) → Known d)
      → Limited lim files Known (found lib lim dir w id message_id r files)
  found-Limited (ok none) files k = refl
  found-Limited (ok (some d)) files k =
      by_test (Limited lim files Known) (not (fetchable d.kind)) (λ e. refl)
        (λ e.
          by_test (Limited lim files Known)
            (may (check_fetch d.kind (nonneg d.size_bytes) d.duration_s lim))
            (λ f. when_ready-Limited d w.refusal files (k d refl)) (λ f. refl))
  found-Limited err_closed files k = refl
  found-Limited io_error files k = refl

-- fetchMedia hands over a file only for a message whose media GetMedia finds, of a kind that is
-- fetched, of a size within the limit of that kind, and, for a voice note, no longer than
-- allowed and not much shorter than declared; it then leaves one new file, and else none.
pub fetch_media-Limited :
    (lib : Library) (lim : MediaLimits) (dir : Text) (w : FetchWorld) (id chat message_id : String)
    (st : Store) (files : Folder)
    → Limited lim files
        (λ d. (get_media w.get_fails w.second_fails chat message_id st).0 ≡ ok (some d))
        (fetch_media lib lim dir w id message_id chat st files)
unfolding fetch_media
fetch_media-Limited lib lim dir w id chat message_id st files =
    found-Limited lib lim dir w id message_id
      (λ d. (get_media w.get_fails w.second_fails chat message_id st).0 ≡ ok (some d))
      (get_media w.get_fails w.second_fails chat message_id st).0 files (λ d e. e)
