-- ===== src/Store/Chats/Laws.antt =====
-- What the chat table of internal/store/store.go says after its methods ran.
use Prim.Native.String.{String}
use text.Mathlib.Text.{◌==◌ as str_eq}
use text.Mathlib.TextEquality.{eq_iff}
use voolo_whatsapp_bridge.Common.{
  ◌≡◌, ◌≢◌, refl, sym, subst, ap, ◌∙◌, Bool, true, false, List, [], ◌∷◌, Option, none, some, length,
  leb, if◌then◌else◌, arith, by_test_false,
}
use voolo_whatsapp_bridge.Store.Tables.{ChatRow, Store, Result, ok, io_error, use_store_open}
use voolo_whatsapp_bridge.Store.Chats.{
  is_lid, insert_chat, settle_chat, chat_at, add_rows, add_open, add_chats, resolve_open,
  resolve_lid_chat,
}

-- The value of an inserted key: what it had, or the new one.
abbrev pub or_else : Bool → Option Bool → Bool
or_else b none = b
or_else b (some c) = c

chat_at-insert_chat :
    (jid k : String) (p : Bool) (rows : List ChatRow)
    → chat_at k (insert_chat jid p rows)
      ≡ (if str_eq jid k then some (or_else p (chat_at k rows)) else chat_at k rows)
unfolding chat_at insert_chat
chat_at-insert_chat jid k p [] = refl
chat_at-insert_chat jid k p (r ∷ rs) =
    ground (arith, eq_iff r.0 jid, eq_iff r.0 k, eq_iff jid k, chat_at-insert_chat jid k p rs)

-- What settling a key leaves there.
abbrev pub settled : Option Bool → Option Bool
settled none = none
settled (some b) = some false

chat_at-settle_chat :
    (lid k : String) (rows : List ChatRow)
    → chat_at k (settle_chat lid rows)
      ≡ (if str_eq lid k then settled (chat_at k rows) else chat_at k rows)
unfolding chat_at settle_chat
chat_at-settle_chat lid k [] = ground arith
chat_at-settle_chat lid k (r ∷ rs) =
    ground (arith, eq_iff r.0 lid, eq_iff r.0 k, eq_iff lid k, chat_at-settle_chat lid k rs)

-- Whether a JID is among some.
abbrev pub among : String → List String → Bool
among k [] = false
among k (j ∷ js) = let rest = among k js in if str_eq j k then true else rest

add_rows-some :
    (js : List String) (rows : List ChatRow)
    → (rows' : List ChatRow) × (add_rows none js rows ≡ some rows')
unfolding add_rows
add_rows-some [] rows = (rows, refl)
add_rows-some (j ∷ js) rows = add_rows-some js (insert_chat j (is_lid j) rows)

chat_at-add_rows :
    (k : String) (js : List String) (rows rows' : List ChatRow)
    → add_rows none js rows ≡ some rows'
    → chat_at k rows'
      ≡ (if among k js then some (or_else (is_lid k) (chat_at k rows)) else chat_at k rows)
unfolding add_rows
chat_at-add_rows k [] rows rows' e = ground arith
chat_at-add_rows k (j ∷ js) rows rows' e = ground (
  arith,
  eq_iff j k,
  (λ (q : j ≡ k). ap is_lid q),
  chat_at-insert_chat j k (is_lid j) rows,
  chat_at-add_rows k js (insert_chat j (is_lid j) rows) rows' e,
)

abbrev ending : Store → Option (List ChatRow) → Result (Unit {0}) × Store
ending s none = (io_error, s)
ending s (some rows) = (ok tt, record s { chats = rows })

add_open-added :
    (js : List String) (s : Store) (rows : List ChatRow)
    → add_rows none js s.chats ≡ some rows
    → add_open false none false js s ≡ (ok tt, record s { chats = rows })
unfolding add_rows
add_open-added [] s rows h = ap (ending s) h
add_open-added (j ∷ js) s rows h =
    by_test_false (leb (length (j ∷ js)) 0) _ _ (ground arith) ∙ ap (ending s) h

-- AddChats in an open store, with no disk error, records every chat it is given: one that is new
-- waits for its alias exactly if it is a @lid chat, and one that was known is as before, like the
-- chats it is not given.
pub chat_at-add_chats :
    (js : List String) (s : Store) (k : String)
    → s.closed ≡ false
    → let (answer, s') = add_chats false none false js s in
      (answer ≡ ok tt)
      × (chat_at k s'.chats ≡ (
          if among k js then some (or_else (is_lid k) (chat_at k s.chats)) else chat_at k s.chats))
unfolding add_chats
chat_at-add_chats js s k o =
    let (rows, h) = add_rows-some js s.chats in
    let added = use_store_open (add_open false none false js) s o ∙ add_open-added js s rows h in
    (
      ap (λ r. r.0) added,
      ap (λ r. chat_at k r.1.chats) added ∙ chat_at-add_rows k js s.chats rows h,
    )

-- What a call of ResolveLIDChat may come to.
abbrev Resolved : String → String → Store → Result (Unit {0}) × Store → Type 0
Resolved lid pn s (answer, s') =
    (answer ≡ ok tt)
    × (chat_at lid s'.chats ≢ some true)
    × (chat_at pn s'.chats ≢ none)
    × ((k : String)
        → str_eq lid k ≡ false
        → str_eq pn k ≡ false
        → chat_at k s'.chats ≡ chat_at k s.chats)

resolve_open-Resolved :
    (lid pn : String) (s : Store) → Resolved lid pn s (resolve_open false lid pn s)
resolve_open-Resolved lid pn s = (
  refl,
  ground (
    arith,
    eq_iff lid lid,
    chat_at-insert_chat pn lid false (settle_chat lid s.chats),
    chat_at-settle_chat lid lid s.chats,
  ),
  ground (arith, eq_iff pn pn, chat_at-insert_chat pn pn false (settle_chat lid s.chats)),
  λ k a b. ground (
    arith,
    chat_at-insert_chat pn k false (settle_chat lid s.chats),
    chat_at-settle_chat lid k s.chats,
  ),
)

-- ResolveLIDChat in an open store, with no disk error: the @lid chat no longer waits for an alias,
-- the phone-number chat is recorded, and the other chats are as before.
pub resolve_lid_chat_lem :
    (lid pn : String) (s : Store)
    → s.closed ≡ false
    → let (answer, s') = resolve_lid_chat false lid pn s in
      (answer ≡ ok tt)
      × (chat_at lid s'.chats ≢ some true)
      × (chat_at pn s'.chats ≢ none)
      × ((k : String)
          → str_eq lid k ≡ false
          → str_eq pn k ≡ false
          → chat_at k s'.chats ≡ chat_at k s.chats)
unfolding resolve_lid_chat
resolve_lid_chat_lem lid pn s o =
    subst (Resolved lid pn s) (sym (use_store_open (resolve_open false lid pn) s o))
      (resolve_open-Resolved lid pn s)
