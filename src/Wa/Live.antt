-- ===== src/Wa/Live.antt =====
-- internal/wa/events.go: what a live event of WhatsApp makes of the reported chats and contacts, and the
-- lines that it writes. types.JID and the client are whatsmeow's: a JID is a type with its operations,
-- and the client's answers to one event, like the disk's, come with it as arguments. JIDs on the
-- pipe, ids and names are strings; `points` gives the code points of one and `spell` makes one of
-- them. A map is an association list in which the newest entry of a key counts. Lines are kept
-- newest first; the log is left out.
pub mod Jid
pub mod Chats
pub mod Incoming
pub mod Messages
pub mod Receipts
pub mod Groups
pub mod Moves
pub mod Once
use Prim.Native.String.{String}
use text.Mathlib.Text.{◌==◌ as str_eq}
use voolo_whatsapp_bridge.Common.{
  ℕ, Bool, true, false, not, ◌&&◌, ◌||◌, List, [], ◌∷◌, Option, none, some, length, take, leb,
  if◌then◌else◌,
}
use voolo_whatsapp_bridge.Protocol.Text.{Text}
use voolo_whatsapp_bridge.Protocol.Commands.{JsonInt}
use voolo_whatsapp_bridge.Protocol.Events.{Chat, Message}
use voolo_whatsapp_bridge.Store.Tables.{Store, ChatRow}
use voolo_whatsapp_bridge.Wa.Lru.{Lru}

abbrev pub max_name_chars : ℕ
max_name_chars = 512

-- The code points of a string, and back.
pub record Spelling : Type 0 where
  pub points : String → Text
  pub spell : Text → String

-- truncate.
unfoldable pub truncate : Spelling → String → ℕ → String
truncate c s n = let t = c.points s in if leb (length t) n then s else c.spell (take n t)

-- ContactInfo, as cli.Contact answers.
pub record ContactInfo : Type 0 where
  pub found : Bool
  pub full_name : String
  pub first_name : String
  pub push_name : String
  pub business_name : String

-- Contact.
pub record Contact : Type 0 where
  pub jid : String
  pub name : String
  pub push_name : String
  pub business_name : String
  pub lid : String

-- ChatUpdate.
pub record ChatUpdate : Type 0 where
  pub jid : String
  pub name : Option String
  pub unread_count : Option ℕ
  pub marked_read : Option Bool
  pub pinned : Option Bool
  pub muted_until : Option JsonInt
  pub archived : Option Bool
  pub alias_of : String

-- Receipt and its kinds.
pub data ReceiptKind : Type 0 where
  delivered read played read_self : ReceiptKind

pub record Receipt : Type 0 where
  pub chat_jid : String
  pub message_ids : List String
  pub kind : ReceiptKind
  pub sender_jid : String
  pub at : ℕ

-- MessageUpdate and Reaction.
pub record MessageUpdate : Type 0 where
  pub chat_jid : String
  pub message_id : String
  pub kind : String
  pub text : String
  pub at : ℕ
  pub by : String

pub record Reaction : Type 0 where
  pub chat_jid : String
  pub message_id : String
  pub sender_jid : String
  pub emoji : String
  pub at : ℕ

-- The lines; that of a group is its JID and its name here.
pub data LiveLine : Type 0 where
  chat_line : Chat → LiveLine
  contact_line : Contact → LiveLine
  update_line : ChatUpdate → LiveLine
  alias_line : String → String → LiveLine  -- the chat_update with aliasOf: pn, lid
  receipt_line : Receipt → LiveLine
  message_line : Message → LiveLine
  message_update_line : MessageUpdate → LiveLine
  reaction_line : Reaction → LiveLine
  group_line : String → String → LiveLine

-- The bridge's bookkeeping of what was reported, with its caches and its store.
pub record Live : Type 0 where
  pub reported : List ChatRow  -- the map chats
  pub contacts : List String
  pub groups_sent : List String
  pub group_names : List (String × String)  -- groupCache, as far as names go
  pub groups_loaded : Bool
  pub group_fetches : List String  -- the groups asked for on a goroutine, newest first
  pub history_queued : ℕ
  pub store : Store
  pub senders : Lru
  pub raw_senders : Lru
  pub lines : List LiveLine

-- Whether the statements of the store fail while one event is handled.
pub record Disk : Type 0 where
  pub begin_fails : Bool
  pub fail_at : Option ℕ
  pub commit_fails : Bool
  pub resolve_fails : Bool

unfoldable pub say : LiveLine → Live → Live
say l b = record b { lines = l ∷ b.lines }

unfoldable pub has : String → List String → Bool
has x [] = false
has x (y ∷ ys) = str_eq y x || has x ys

-- firstNonEmpty.
unfoldable pub first_non_empty : List String → String
first_non_empty [] = ""
first_non_empty (v ∷ vs) = let rest = first_non_empty vs in if str_eq v "" then rest else v
