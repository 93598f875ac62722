-- ===== src/Store/Media.antt =====
-- internal/store/store.go: the descriptors of reported attachments (table voolo_media).
pub mod Laws
use Prim.Native.String.{String}
use text.Mathlib.Text.{◌==◌ as str_eq}
use voolo_whatsapp_bridge.Common.{
  ℕ, ◌+◌, ◌-◌, Bool, true, false, not, ◌&&◌, List, [], ◌∷◌, ◌++◌, map, Option, none, some, length,
  keep, take, count_of, ltb, leb, if◌then◌else◌,
}
use voolo_whatsapp_bridge.Store.Tables.{MediaDesc, Store, Result, ok, io_error, use_store}

-- MediaRetention, in milliseconds.
abbrev pub media_retention : ℕ
media_retention = 7776000000

-- The primary key of the table.
abbrev pub has_key : String → String → MediaDesc → Bool
has_key chat id d = str_eq d.chat_jid chat && str_eq d.message_id id

-- INSERT ... ON CONFLICT DO UPDATE: a row with the key of `d` takes its values, else it is new.
unfoldable pub upsert : MediaDesc → List MediaDesc → List MediaDesc
upsert d [] = d ∷ []
upsert d (r ∷ rs) =
    let rest = upsert d rs in if has_key d.chat_jid d.message_id r then d ∷ rs else r ∷ rest

-- The statements of the loop in PutMedia: how many succeed before one fails, if one does; `none` if
-- one fails, and the transaction is rolled back.
unfoldable pub put_rows : Option ℕ → List MediaDesc → List MediaDesc → Option (List MediaDesc)
put_rows fail_at [] rows = some rows
put_rows none (d ∷ ds) rows = put_rows none ds (upsert d rows)
put_rows (some n) (d ∷ ds) rows =
    let rest = put_rows (some (n - 1)) ds (upsert d rows) in if leb n 0 then none else rest

abbrev pub put_open : Bool → Option ℕ → Bool → List MediaDesc → Store → Result (Unit {0}) × Store
put_open begin_fails fail_at commit_fails ds s =
    if leb (length ds) 0
    then (ok tt, s)
    else (if begin_fails then (io_error, s) else elim (put_rows fail_at ds s.media) [
      | none ↦ (io_error, s)
      | some rows ↦ if commit_fails then (io_error, s) else (ok tt, record s { media = rows })
    ])

-- PutMedia: BEGIN, the statements and COMMIT can each fail.
unfoldable pub put_media :
    Bool → Option ℕ → Bool → List MediaDesc → Store → Result (Unit {0}) × Store
unfolding put_rows
put_media begin_fails fail_at commit_fails ds =
    use_store (put_open begin_fails fail_at commit_fails ds)

-- SELECT ... WHERE chat_jid = chat AND message_id = id.
unfoldable pub row_of : String → String → List MediaDesc → Option MediaDesc
row_of chat id [] = none
row_of chat id (r ∷ rs) = let rest = row_of chat id rs in if has_key chat id r then some r else rest

-- The rows that the second query of GetMedia finds, two at most, and what the method makes of them.
abbrev pub only_one : List MediaDesc → Option MediaDesc
only_one (d ∷ []) = some d
only_one _ = none

abbrev pub same_id : String → List MediaDesc → List MediaDesc
same_id id = keep (λ d. str_eq d.message_id id)

abbrev pub get_open : Bool → Bool → String → String → Store → Result (Option MediaDesc) × Store
get_open first_fails second_fails chat id s =
    if first_fails then (io_error, s) else elim (row_of chat id s.media) [
      | some d ↦ (ok (some d), s)
      | none ↦
          if second_fails then (io_error, s) else (ok (only_one (take 2 (same_id id s.media))), s)
    ]

-- GetMedia: either query can fail.
unfoldable pub get_media : Bool → Bool → String → String → Store → Result (Option MediaDesc) × Store
unfolding row_of
get_media first_fails second_fails chat id = use_store (get_open first_fails second_fails chat id)

-- PruneMedia: how many rows it deleted.
unfoldable pub prune_media : Bool → ℕ → Store → Result ℕ × Store
prune_media fails now = use_store λ s. if fails then (io_error, s) else (
  ok (count_of (λ d. ltb d.msg_ts (now - media_retention)) s.media),
  record s { media = keep (λ d. not (ltb d.msg_ts (now - media_retention))) s.media },
)
