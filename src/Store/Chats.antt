-- ===== src/Store/Chats.antt =====
-- internal/store/store.go: the reported chats (table voolo_chats).
pub mod Laws
use Prim.Native.String.{String, slice, len}
use text.Mathlib.Text.{◌==◌ as str_eq}
use voolo_whatsapp_bridge.Common.{
  ℕ, ◌-◌, Bool, true, false, List, [], ◌∷◌, ◌++◌, map, Option, none, some, length, leb,
  if◌then◌else◌,
}
use voolo_whatsapp_bridge.Store.Tables.{ChatRow, Store, Result, ok, io_error, use_store}

-- INSERT ... ON CONFLICT (jid) DO NOTHING.
unfoldable pub insert_chat : String → Bool → List ChatRow → List ChatRow
insert_chat jid pending [] = (jid, pending) ∷ []
insert_chat jid pending (r ∷ rs) =
    let rest = insert_chat jid pending rs in if str_eq r.0 jid then r ∷ rs else r ∷ rest

-- UPDATE ... SET lid_alias_pending=0 WHERE jid = lid.
unfoldable pub settle_chat : String → List ChatRow → List ChatRow
settle_chat lid = map (λ r. if str_eq r.0 lid then (r.0, false) else r)

-- The map that Chats returns, at one key: the primary key of the table leaves one row for it.
unfoldable pub chat_at : String → List ChatRow → Option Bool
chat_at jid [] = none
chat_at jid (r ∷ rs) = let rest = chat_at jid rs in if str_eq r.0 jid then some r.1 else rest

-- Chats: the rows, each a key of the map with its value.
unfoldable pub chats : Bool → Store → Result (List ChatRow) × Store
chats fails = use_store λ s. if fails then (io_error, s) else (ok s.chats, s)

-- strings.HasSuffix(jid, "@lid").
unfoldable pub is_lid : String → Bool
is_lid jid = str_eq (slice jid (len jid - 4) (len jid)) "@lid"

-- The loop of AddChats: how many statements succeed before one fails, if one does.
unfoldable pub add_rows : Option ℕ → List String → List ChatRow → Option (List ChatRow)
add_rows fail_at [] rows = some rows
add_rows none (j ∷ js) rows = add_rows none js (insert_chat j (is_lid j) rows)
add_rows (some n) (j ∷ js) rows =
    let rest = add_rows (some (n - 1)) js (insert_chat j (is_lid j) rows) in
    if leb n 0 then none else rest

abbrev pub add_open : Bool → Option ℕ → Bool → List String → Store → Result (Unit {0}) × Store
add_open begin_fails fail_at commit_fails jids s =
    if leb (length jids) 0
    then (ok tt, s)
    else (if begin_fails then (io_error, s) else elim (add_rows fail_at jids s.chats) [
      | none ↦ (io_error, s)
      | some rows ↦ if commit_fails then (io_error, s) else (ok tt, record s { chats = rows })
    ])

-- AddChats.
unfoldable pub add_chats : Bool → Option ℕ → Bool → List String → Store → Result (Unit {0}) × Store
unfolding add_rows
add_chats begin_fails fail_at commit_fails jids =
    use_store (add_open begin_fails fail_at commit_fails jids)

-- ResolveLIDChat in an open store: whether one of BEGIN, the two statements and COMMIT fails.
abbrev pub resolve_open : Bool → String → String → Store → Result (Unit {0}) × Store
resolve_open fails lid pn s =
    if fails
    then (io_error, s)
    else (ok tt, record s { chats = insert_chat pn false (settle_chat lid s.chats) })

-- ResolveLIDChat.
unfoldable pub resolve_lid_chat : Bool → String → String → Store → Result (Unit {0}) × Store
unfolding insert_chat settle_chat
resolve_lid_chat fails lid pn = use_store (resolve_open fails lid pn)
