-- ===== src/Store/Outbox.antt =====
-- internal/store/store.go: the remembered outbox ids (table voolo_sent).
pub mod Laws
pub mod Bounds
use Prim.Native.String.{String}
use text.Mathlib.Text.{◌==◌ as str_eq}
use voolo_whatsapp_bridge.Common.{
  ℕ, Bool, true, false, List, [], ◌∷◌, ◌++◌, map, Option, none, some, length, keep, take, count_of,
  ltb, if◌then◌else◌,
}
use voolo_whatsapp_bridge.Common.Sort.{sort_stable}
use voolo_whatsapp_bridge.Store.Tables.{Sent, Store, Result, ok, io_error, use_store}

-- OutboxKeep.
abbrev pub outbox_keep : ℕ
outbox_keep = 1000

abbrev pub has_id : String → Sent → Bool
has_id id r = str_eq r.outbox_id id

-- SELECT count(*) ... WHERE outbox_id = id, compared with 0.
unfoldable pub is_known : String → List Sent → Bool
is_known id [] = false
is_known id (r ∷ rs) = let rest = is_known id rs in if has_id id r then true else rest

-- ORDER BY created_at DESC: the rows come with the greatest rowid first already.
abbrev pub created_later : Sent → Sent → Bool
created_later a b = ltb b.created_at a.created_at

-- The rows of the subquery: ORDER BY created_at DESC, rowid DESC LIMIT OutboxKeep.
abbrev pub newest_rows : List Sent → List Sent
newest_rows rows = take outbox_keep (sort_stable created_later rows)

-- DELETE ... WHERE outbox_id NOT IN (the subquery).
unfoldable pub prune : List Sent → List Sent
unfolding is_known
prune rows = keep (λ r. is_known r.outbox_id (newest_rows rows)) rows

abbrev pub new_row : String → ℕ → Sent
new_row id now = record {
  outbox_id = id;
  message_id = none;
  created_at = now;
  dispatched_at = none;
}

-- ReserveOutbox in an open store: whether the id is a duplicate. The INSERT and the DELETE can each
-- fail; a failed DELETE leaves the new row in the table.
unfoldable pub reserve_open : Bool → Bool → String → ℕ → Store → Result Bool × Store
reserve_open insert_fails delete_fails id now s =
    if insert_fails
    then (io_error, s)
    else (if is_known id s.sent
        then (ok true, s)
        else (if delete_fails
            then (io_error, record s { sent = new_row id now ∷ s.sent })
            else (ok false, record s { sent = prune (new_row id now ∷ s.sent) })))

-- ReserveOutbox.
unfoldable pub reserve_outbox : Bool → Bool → String → ℕ → Store → Result Bool × Store
unfolding reserve_open
reserve_outbox insert_fails delete_fails id now =
    use_store (reserve_open insert_fails delete_fails id now)

-- UPDATE ... WHERE outbox_id = id.
unfoldable pub update_row : String → (Sent → Sent) → List Sent → List Sent
update_row id f = map (λ r. if has_id id r then f r else r)

-- SetOutboxMessage.
unfoldable pub set_outbox_message : Bool → String → String → Store → Result (Unit {0}) × Store
unfolding update_row
set_outbox_message fails id message = use_store λ s. if fails then (io_error, s) else (
  ok tt,
  record s { sent = update_row id (λ r. record r { message_id = some message }) s.sent },
)

-- MarkDispatched.
unfoldable pub mark_dispatched : Bool → String → ℕ → Store → Result (Unit {0}) × Store
unfolding update_row
mark_dispatched fails id now = use_store λ s. if fails then (io_error, s) else (
  ok tt,
  record s { sent = update_row id (λ r. record r { dispatched_at = some now }) s.sent },
)

-- OutboxKnown.
unfoldable pub outbox_known : Bool → String → Store → Result Bool × Store
unfolding is_known
outbox_known fails id = use_store λ s. if fails then (io_error, s) else (ok (is_known id s.sent), s)

-- The times of the rows with dispatched_at > since.
unfoldable pub dispatched_after : ℕ → List Sent → List ℕ
dispatched_after since [] = []
dispatched_after since (r ∷ rs) =
    let rest = dispatched_after since rs in
    elim r.dispatched_at [ none ↦ rest | some t ↦ if ltb since t then t ∷ rest else rest ]

-- RecentSends: ORDER BY dispatched_at, rowid. Equal times are equal answers, whatever their rows.
unfoldable pub recent_sends : Bool → ℕ → Store → Result (List ℕ) × Store
unfolding dispatched_after
recent_sends fails since =
    use_store λ s.
      if fails then (io_error, s) else (ok (sort_stable ltb (dispatched_after since s.sent)), s)
