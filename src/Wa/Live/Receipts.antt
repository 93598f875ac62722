-- ===== src/Wa/Live/Receipts.antt =====
-- internal/wa/events.go, onReceipt and chatUpdate. Each receipt event carries 256 ids at most: the
-- fuel of the loop is the number of ids, of which every round takes one or more.
pub mod Split
use Prim.Native.String.{String}
use text.Mathlib.Text.{◌==◌ as str_eq}
use voolo_whatsapp_bridge.Common.{
  ℕ, zero, suc, Bool, true, false, not, ◌&&◌, ◌||◌, List, [], ◌∷◌, keep, take, drop, length, Option,
  none, some, if◌then◌else◌,
}
use voolo_whatsapp_bridge.Wa.Live.{
  Spelling, ReceiptKind, read_self, Receipt, ChatUpdate, receipt_line, update_line, Live, Disk, say,
}
use voolo_whatsapp_bridge.Wa.Live.Jid.{Jids, Client, user_jid}
use voolo_whatsapp_bridge.Wa.Live.Chats.{chat_jid}
use voolo_whatsapp_bridge.Wa.Live.Incoming.{id_ok}

abbrev pub max_receipt_ids : ℕ
max_receipt_ids = 256

-- events.Receipt, its type by ReceiptKind.
pub record IncomingReceipt (J : Type 0) : Type 0 where
  pub chat : J
  pub sender : J
  pub sender_alt : J
  pub from_me : Bool
  pub is_group : Bool
  pub ids : List String
  pub kind : Option ReceiptKind
  pub at : ℕ

abbrev pub is_read_self : ReceiptKind → Bool
is_read_self read_self = true
is_read_self k = false

-- The loop that emits.
unfoldable pub receipts : ℕ → Receipt → List String → Live → Live
unfolding say
receipts zero r ids b = b
receipts (suc fuel) r [] b = b
receipts (suc fuel) r (i ∷ ids) b =
    receipts fuel r (drop max_receipt_ids (i ∷ ids))
      (say (receipt_line (record r { message_ids = take max_receipt_ids (i ∷ ids) })) b)

module _ (c : Spelling) {J : Type 0} (jids : Jids J) (cli : Client J) (d : Disk) where
  abbrev pub receipt_of : IncomingReceipt J → ReceiptKind → String → Receipt
  receipt_of e kind chat = record {
    chat_jid = chat;
    message_ids = [];
    kind = kind;
    sender_jid =
        if e.is_group && not (is_read_self kind)
        then user_jid jids cli e.sender e.sender_alt
        else "";
    at = e.at;
  }

  abbrev pub valid_ids : IncomingReceipt J → List String
  valid_ids e = keep (λ i. id_ok c i) e.ids

  abbrev pub receipts_in : IncomingReceipt J → ReceiptKind → Option String × Live → Live
  receipts_in e kind (none, b) = b
  receipts_in e kind (some chat, b) =
      receipts (length (valid_ids e)) (receipt_of e kind chat) (valid_ids e) b

  abbrev pub of_kind : IncomingReceipt J → Option ReceiptKind → Live → Live
  of_kind e none b = b
  of_kind e (some kind) b =
      if e.from_me && not (is_read_self kind)
      then b
      else receipts_in e kind
          (chat_jid c jids cli d e.chat (if e.is_group then jids.empty else e.sender_alt) b)

  -- onReceipt.
  unfoldable pub on_receipt : IncomingReceipt J → Live → Live
  unfolding receipts chat_jid id_ok user_jid
  on_receipt e b = of_kind e e.kind b

  -- chatUpdate: `set` fills in what has changed.
  abbrev pub plain_update : String → ChatUpdate
  plain_update jid = record {
    jid = jid;
    name = none;
    unread_count = none;
    marked_read = none;
    pinned = none;
    muted_until = none;
    archived = none;
    alias_of = "";
  }

  abbrev pub updated : (ChatUpdate → ChatUpdate) → Option String × Live → Live
  updated set (none, b) = b
  updated set (some jid, b) = say (update_line (set (plain_update jid))) b

  unfoldable pub chat_update : J → (ChatUpdate → ChatUpdate) → Live → Live
  unfolding chat_jid say
  chat_update j set b = updated set (chat_jid c jids cli d j jids.empty b)
