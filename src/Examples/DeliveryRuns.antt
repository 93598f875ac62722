-- ===== src/Examples/DeliveryRuns.antt =====
-- A run of internal/wa/historysync.go: a conversation of four messages in a window of two, with one
-- message to a batch, of which the cap on the chat lets three through.
use Prim.Native.String.{String}
use voolo_whatsapp_bridge.Common.{◌≡◌, ℕ, false, List, [], ◌∷◌, ◌++◌, map, none}
use voolo_whatsapp_bridge.Protocol.Events.{Message, Chat}
use voolo_whatsapp_bridge.History.Window.{Window}
use voolo_whatsapp_bridge.History.Caps.{Caps, filter}
use voolo_whatsapp_bridge.History.Split.Laws.{joined}
use voolo_whatsapp_bridge.Wa.Delivery.{HistoryBatch, Turn, all_sent, history_conversation}
use voolo_whatsapp_bridge.Wa.Delivery.Sent.{CountUp, history_conversation-Sent}

abbrev message : String → ℕ → Message
message id ts = record {
  chat_jid = "a@s";
  id = id;
  sender_jid = "b@s";
  from_me = false;
  ts = ts;
  kind = "text";
  text = "x";
  push_name = "";
  quoted = none;
  mentions = [];
  mention_lids = [];
  forwarded = false;
  edited = false;
  media = none;
}

abbrev messages : List Message
messages =
    message "1" 20000 ∷ message "2" 500000000 ∷ message "3" 400000000 ∷ message "4" 300000000 ∷ []

abbrev chat : Chat
chat = record {
  jid = "a@s";
  kind = "dm";
  name = "";
  unread_count = none;
  pinned = none;
  muted_until = 0;
  archived = none;
  last_message_at = 0;
}

abbrev turns : List Turn
turns =
    record { acks = []; stop = false; stop_after = false }
    ∷ record { acks = []; stop = false; stop_after = false }
    ∷ record { acks = []; stop = false; stop_after = false }
    ∷ record { acks = 5 ∷ []; stop = false; stop_after = false }
    ∷ []

abbrev large : Message → ℕ
large m = 700000

abbrev caps : Caps
caps = record { days = 30; max_per_chat = 3; counts = λ j. 0 }

abbrev window : Window
window = record { size = 2; next = 5; outstanding = []; changed = 0 }

history_conversation-Sent_example :
    let ((out, how, w'), caps') =
      history_conversation "recent" chat none large 100 500000000 messages turns caps window in
    CountUp 5 out
    × ((left : List Message) × (joined (map (λ (b : HistoryBatch). b.messages) out) ++ left
          ≡ (filter caps 500000000 "a@s" messages).0)
        × (how ≡ all_sent → left ≡ []))
history_conversation-Sent_example =
    history_conversation-Sent "recent" chat none large 100 500000000 messages turns caps window
