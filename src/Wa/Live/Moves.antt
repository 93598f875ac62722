-- ===== src/Wa/Live/Moves.antt =====
-- The operations of internal/wa/events.go as sequences of a few moves, and what is kept by each move.
pub mod Operations
pub mod Present
pub mod Events
use Prim.Native.String.{String}
use voolo_whatsapp_bridge.Common.{◌≡◌, refl, Bool, true, false, List, ◌∷◌, none}
use voolo_whatsapp_bridge.Protocol.Events.{Chat, Message}
use voolo_whatsapp_bridge.Store.Tables.{ChatRow}
use voolo_whatsapp_bridge.Store.Chats.{chat_at}
use voolo_whatsapp_bridge.Wa.Live.{LiveLine, chat_line, alias_line, message_line, Live, say}
use voolo_whatsapp_bridge.Wa.Live.Chats.{is_pending, is_given}

-- The lines that no claim counts.
abbrev pub is_free : LiveLine → Bool
is_free (chat_line ch) = false
is_free (alias_line pn lid) = false
is_free (message_line m) = false
is_free l = true

abbrev pub present : String → List ChatRow → Bool
present j rows = is_given (chat_at j rows)

pub data LiveMove (b : Live) : Live → Type 0 where
  silent : {t : Live} → t.reported ≡ b.reported → t.lines ≡ b.lines → LiveMove b t
  says : (l : LiveLine) → is_free l ≡ true → LiveMove b (say l b)
  says_message :
      (m : Message) → present m.chat_jid b.reported ≡ true → LiveMove b (say (message_line m) b)
  aliases :
      (lid pn : String) {t : Live}
      → is_pending (chat_at lid b.reported) ≡ true
      → t.reported ≡ (pn, false) ∷ (lid, false) ∷ b.reported
      → t.lines ≡ alias_line pn lid ∷ b.lines
      → LiveMove b t
  reports :
      (ch : Chat) (waits : Bool) {t : Live}
      → chat_at ch.jid b.reported ≡ none
      → t.reported ≡ (ch.jid, waits) ∷ b.reported
      → t.lines ≡ chat_line ch ∷ b.lines
      → LiveMove b t

pub data LiveMoves (b : Live) : Live → Type 0 where
  no_move : LiveMoves b b
  then_move : {s t : Live} → LiveMoves b s → LiveMove s t → LiveMoves b t

pub LiveMoves-trans : {a b c : Live} → LiveMoves a b → LiveMoves b c → LiveMoves a c
LiveMoves-trans m no_move = m
LiveMoves-trans m (then_move n x) = then_move (LiveMoves-trans m n) x

pub one_move : {b t : Live} → LiveMove b t → LiveMoves b t
one_move x = then_move no_move x
