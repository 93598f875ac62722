-- ===== src/Wa/Live/Once.antt =====
-- Runs of the handlers of internal/wa/events.go from the chats that the store had when it was opened,
-- with what goroutines beside the handler do to the reported chats: the conversations of
-- internal/wa/historysync.go, the groups that were joined, and the sweeps. Of a conversation these are
-- two steps, chatJID when it is taken up and markReported when some of its messages are kept. The lines
-- of a goroutine's step are written in that step here, in the source after an unlock.
pub mod Aliases
pub mod Announced
use Prim.Native.String.{String, len}
use voolo_whatsapp_bridge.Common.{
  ltb, ◌≡◌, refl, Bool, true, false, ◌&&◌, List, [], ◌∷◌, Option, none, some,
}
use voolo_whatsapp_bridge.Store.Tables.{ChatRow}
use voolo_whatsapp_bridge.Store.Chats.{chat_at, is_lid}
use voolo_whatsapp_bridge.Wa.Live.{Spelling, ChatUpdate, Live, Disk}
use voolo_whatsapp_bridge.Wa.Live.Jid.{Jids, Client}
use voolo_whatsapp_bridge.Wa.Live.Chats.{
  contact_changed, sweep_lids, chat_jid, mark_reported, mark_all, marked, recorded,
}
use voolo_whatsapp_bridge.Wa.Live.Groups.{joined_group}
use voolo_whatsapp_bridge.Wa.Live.Incoming.{Incoming}
use voolo_whatsapp_bridge.Wa.Live.Messages.{on_message, on_undecryptable}
use voolo_whatsapp_bridge.Wa.Live.Receipts.{IncomingReceipt, on_receipt, chat_update}
use voolo_whatsapp_bridge.Wa.Live.Moves.{LiveMoves, no_move, LiveMoves-trans, one_move, silent}
use voolo_whatsapp_bridge.Wa.Live.Moves.Operations.{
  contact_changed-Moves, sweep_lids-Moves, chat_jid-Moves, ensure_chat-Moves,
}
use voolo_whatsapp_bridge.Wa.Live.Moves.Events.{
  on_message-Moves, on_undecryptable-Moves, on_receipt-Moves, chat_update-Moves,
}

module _ (c : Spelling) {J : Type 0} (jids : Jids J) where
  -- One event, with the client's and the disk's answers while it is handled.
  pub data LiveStep (b : Live) : Live → Type 0 where
    messages :
        (cli : Client J) (d : Disk) (e : Incoming J) → LiveStep b (on_message c jids cli d e b)
    unreadable :
        (cli : Client J) (d : Disk) (view_once : Bool) (e : Incoming J)
        → LiveStep b (on_undecryptable c jids cli d view_once e b)
    receipts :
        (cli : Client J) (d : Disk) (e : IncomingReceipt J)
        → LiveStep b (on_receipt c jids cli d e b)
    updates :
        (cli : Client J) (d : Disk) (j : J) (set : ChatUpdate → ChatUpdate)
        → LiveStep b (chat_update c jids cli d j set b)
    contacts :
        (cli : Client J) (d : Disk) (j alt : J) → LiveStep b (contact_changed c jids cli d j alt b)
    sweeps :
        (cli : Client J) (d : Disk) (js : List String) → LiveStep b (sweep_lids c jids cli d js b)
    joins :
        (cli : Client J) (d : Disk) (j : J) (name : String)
        → LiveStep b (joined_group c jids cli d j name b)
    takes_up :
        (cli : Client J) (d : Disk) (j alt : J) → LiveStep b (chat_jid c jids cli d j alt b).1
    marks : (d : Disk) (jid : String) → LiveStep b (mark_reported d (jid ∷ []) b).1

  pub data LiveRuns (b : Live) : Live → Type 0 where
    none_yet : LiveRuns b b
    and_then : {s t : Live} → LiveRuns b s → LiveStep s t → LiveRuns b t

  -- The chats that a step of a goroutine beside the handler is about.
  abbrev shown : Option J → List String → List String
  shown none js = js
  shown (some j) js = jids.show j ∷ js

  abbrev pn_of : Client J → Option J → Option J
  pn_of cli none = none
  pn_of cli (some lid) = cli.pn_for_lid lid

  abbrev swept_to : Client J → List String → List String
  swept_to cli [] = []
  swept_to cli (l ∷ ls) = shown (pn_of cli (jids.parse l)) (swept_to cli ls)

  abbrev if_any : Option String → List String
  if_any none = []
  if_any (some j) = j ∷ []

  abbrev pub beside : {b t : Live} → LiveStep b t → List String
  beside (messages cli d e) = []
  beside (unreadable cli d v e) = []
  beside (receipts cli d e) = []
  beside (updates cli d j set) = []
  beside (contacts cli d j alt) = []
  beside (sweeps cli d js) = swept_to cli js
  beside (joins cli d j name) = jids.show (jids.to_non_ad j) ∷ []
  beside {b} (takes_up cli d j alt) = if_any (chat_jid c jids cli d j alt b).0
  beside (marks d jid) = jid ∷ []

  -- A step is a sequence of moves, or it marks a chat without a line.
  pub data LiveKind (b : Live) : List String → Live → Type 0 where
    moves : {js : List String} {t : Live} → LiveMoves b t → LiveKind b js t
    marks_only :
        (j : String) (w : Bool) {t : Live}
        → chat_at j b.reported ≡ none
        → t.reported ≡ (j, w) ∷ b.reported
        → t.lines ≡ b.lines
        → LiveKind b (j ∷ []) t

  marked-Kind :
      (d : Disk) (j : String) (b : Live) (p : Option Bool)
      → chat_at j b.reported ≡ p
      → LiveKind b
          (j ∷ [])
          (recorded d
            (marked j p ([], (j, ltb 4 (len j) && is_lid j) ∷ b.reported) ([], b.reported))
            b).1
  marked-Kind d j b none e = marks_only j _ e refl refl
  marked-Kind d j b (some p) e = moves (one_move (silent refl refl))

  mark_reported-Kind :
      (d : Disk) (j : String) (b : Live) → LiveKind b (j ∷ []) (mark_reported d (j ∷ []) b).1
  unfolding mark_reported mark_all
  mark_reported-Kind d j b = marked-Kind d j b (chat_at j b.reported) refl

  joined_group-Moves :
      (cli : Client J) (d : Disk) (j : J) (name : String) (b : Live)
      → LiveMoves b (joined_group c jids cli d j name b)
  unfolding joined_group
  joined_group-Moves cli d j name b =
      let jid = jids.show (jids.to_non_ad j) in
      LiveMoves-trans
        (one_move (silent {t = record b { group_names = (jid, name) ∷ b.group_names }} refl refl))
        (ensure_chat-Moves c jids cli d jid true _)

  pub Step-Kind : {b t : Live} (st : LiveStep b t) → LiveKind b (beside st) t
  Step-Kind (messages cli d e) = moves (on_message-Moves c jids cli d e _)
  Step-Kind (unreadable cli d v e) = moves (on_undecryptable-Moves c jids cli d v e _)
  Step-Kind (receipts cli d e) = moves (on_receipt-Moves c jids cli d e _)
  Step-Kind (updates cli d j set) = moves (chat_update-Moves c jids cli d j set _)
  Step-Kind (contacts cli d j alt) = moves (contact_changed-Moves c jids cli d j alt _)
  Step-Kind (sweeps cli d js) = moves (sweep_lids-Moves c jids cli d js _)
  Step-Kind (joins cli d j name) = moves (joined_group-Moves cli d j name _)
  Step-Kind (takes_up cli d j alt) = moves (chat_jid-Moves c jids cli d j alt _)
  Step-Kind (marks d jid) = mark_reported-Kind d jid _

  -- The chats known without a line of the handler's: those of the store, and those that were the
  -- business of a goroutine beside it.
  abbrev pub add_chats_of : List String → List ChatRow → List ChatRow
  add_chats_of [] rows = rows
  add_chats_of (j ∷ js) rows = (j, false) ∷ add_chats_of js rows

  abbrev pub known_to : {b t : Live} → LiveRuns b t → List ChatRow
  known_to {b} none_yet = b.reported
  known_to (and_then r st) = add_chats_of (beside st) (known_to r)
