-- ===== src/Wa/Live/Once/Announced.antt =====
-- In internal/wa/events.go no message comes before its chat.
use Prim.Native.String.{String}
use text.Mathlib.Text.{◌==◌ as str_eq}
use voolo_whatsapp_bridge.Common.{◌≡◌, Bool, true, false, ◌||◌, List, [], ◌∷◌}
use voolo_whatsapp_bridge.Store.Tables.{ChatRow}
use voolo_whatsapp_bridge.Wa.Live.{LiveLine, chat_line, alias_line, message_line, Live}
use voolo_whatsapp_bridge.Wa.Live.Moves.{present}

-- A chat that the lines told of, by itself or as the alias of another.
abbrev pub tells_of : String → LiveLine → Bool
tells_of j (chat_line ch) = str_eq ch.jid j
tells_of j (alias_line pn lid) = str_eq pn j
tells_of j l = false

abbrev pub told : String → List LiveLine → Bool
told j [] = false
told j (l ∷ lines) = tells_of j l || told j lines

-- Each message's chat was known at the start or told of before the message; the lines are the newest
-- first.
abbrev pub InOrder : List ChatRow → List LiveLine → Type 0
InOrder rows [] = Unit
InOrder rows (message_line m ∷ lines) =
    ((present m.chat_jid rows || told m.chat_jid lines) ≡ true) × InOrder rows lines
InOrder rows (l ∷ lines) = InOrder rows lines

record Ordered (start : List ChatRow) (b : Live) : Type 0 where
  known : (j : String) → present j b.reported ≡ true → (present j start || told j b.lines) ≡ true
  in_order : InOrder start b.lines

Wider : List ChatRow → List ChatRow → Type 0
Wider rows more = (j : String) → present j rows ≡ true → present j more ≡ true
