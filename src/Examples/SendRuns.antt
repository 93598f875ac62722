-- ===== src/Examples/SendRuns.antt =====
-- Runs of internal/wa/commands.go: a send_text that goes out as a reply, one while another is on its
-- way, and receipts for two messages of one sender.
use text.Mathlib.Text.{◌==◌ as str_eq}
use voolo_whatsapp_bridge.Common.{All, ◌≡◌, ◌⊎◌, refl, arith, Bool, true, false, [], ◌∷◌, some}
use voolo_whatsapp_bridge.Protocol.Events.{internal}
use voolo_whatsapp_bridge.Store.Tables.{ok}
use voolo_whatsapp_bridge.Store.Outbox.{outbox_known}
use voolo_whatsapp_bridge.Wa.Lru.{Lru, value_of, get}
use voolo_whatsapp_bridge.Wa.Backstop.{backstop_allows}
use voolo_whatsapp_bridge.Wa.Send.{Reply, Handed, Bridge, World, send_text}
use voolo_whatsapp_bridge.Wa.MarkRead.{Receipts, check_senders, mark_read}
use voolo_whatsapp_bridge.Wa.MarkRead.Senders.{NotOther, mark_read-NotOther}
use voolo_whatsapp_bridge.Wa.Lru.Laws.{IsValid}
use voolo_whatsapp_bridge.Wa.Send.Slot.{AnsweredOnce, send_text_lem}

abbrev world : World
world = record {
  opened = true;
  paired = true;
  connected = true;
  chat_known = true;
  known_fails = false;
  insert_fails = false;
  delete_fails = false;
  mark_fails = false;
  set_fails = false;
  check_at = 9000000000000;
  send_at = 9000100000000;
  to_jid = "1@s.whatsapp.net";
  own_jid = "2@s.whatsapp.net";
  answer = some "M1";
  error_code = internal;
}

abbrev no_senders : Lru
no_senders = record { max = 100; ll = []; m = λ _. false }

abbrev bridge : Bool → Bridge
bridge taken = record {
  store = record { closed = false; locked = true; sent = []; media = []; chats = [] };
  sending = taken;
  sends = 8000000000000 ∷ [];
  pins = [];
  senders = no_senders;
  raw_senders = no_senders;
  handed_over = [];
  events = [];
}

abbrev reply : Reply
reply = record {
  quoted_message_id = "M0";
  quoted_sender_jid = "";
  quoted_text = "hi";
  forwarded = false;
}

send_text_example :
    let b' = send_text world "c1" "1@s.whatsapp.net" "O1" "hello" reply (bridge false) in
    (b'.sending ≡ false)
    × AnsweredOnce (bridge false) b'
    × ((b'.handed_over ≡ [])
        ⊎ ((msg : Handed) × (b'.handed_over ≡ msg ∷ [])
            × (msg.outbox_id ≡ "O1")
            × ((outbox_known false "O1" (bridge false).store).0 ≡ ok false)
            × ((backstop_allows (8000000000000 ∷ []) 9000000000000).0 ≡ true)))
send_text_example =
    send_text_lem world "c1" "1@s.whatsapp.net" "O1" "hello" reply (bridge false) refl

abbrev receipts : Receipts
receipts = record { chat_jid = "5@g.us"; message_ids = "M1" ∷ "M2" ∷ []; sender_jid = "3@lid" }

-- The cache knows who wrote the first of the messages.
abbrev knowing : Bridge
knowing = record (bridge false) {
  senders = record { max = 100; ll = ("5@g.us|M1", "3@lid") ∷ []; m = λ k. str_eq "5@g.us|M1" k };
}

knowing-IsValid : IsValid knowing.senders
unfolding value_of
knowing-IsValid = record {
  indexed = λ k. ground arith;
  distinct = (refl, tt);
  bounded = omega arith;
}

receipts_passed : (mark_read world true "c3" receipts knowing).0 ≡ true
unfolding mark_read check_senders get value_of
receipts_passed = refl

mark_read_example : All (NotOther "5@g.us" "3@lid" knowing.senders) ("M1" ∷ "M2" ∷ [])
mark_read_example =
    mark_read-NotOther world true "c3" receipts knowing knowing-IsValid refl receipts_passed
