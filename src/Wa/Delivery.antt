-- ===== src/Wa/Delivery.antt =====
-- internal/wa/historysync.go: the batches of one conversation, from Filter over Split to the window. The
-- messages are those of toMessage, `encoded_size` and `chat_size` are as in History.Split. While a
-- batch waits for the window, acknowledgements come in: a Turn is one round of Acquire, with the
-- acknowledgements before it and whether the session is cancelled at it or just behind it. The names, the
-- media rows and the reactions that go with a conversation are left out; its markReported, between
-- Filter and Split, is a step of Wa/Live/Once.
pub mod Sent
use Prim.Native.String.{String}
use voolo_whatsapp_bridge.Common.{
  ℕ, Bool, true, false, List, [], ◌∷◌, Option, none, some, length, if◌then◌else◌,
}
use voolo_whatsapp_bridge.Protocol.Events.{Message, Chat}
use voolo_whatsapp_bridge.History.Window.{Window, Acquired, cancelled, granted, waits, acquire, ack}
use voolo_whatsapp_bridge.History.Caps.{Caps, filter}
use voolo_whatsapp_bridge.History.Split.{split}

-- HistoryBatch.
pub record HistoryBatch : Type 0 where
  pub seq : ℕ
  pub sync_type : String
  pub chat : Chat
  pub messages : List Message
  pub progress : Option ℕ

pub record Turn : Type 0 where
  pub acks : List ℕ
  pub stop : Bool
  pub stop_after : Bool

-- How the loop over the batches is left.
pub data Delivered : Type 0 where
  all_sent was_cancelled still_waiting : Delivered

unfoldable pub acked_all : List ℕ → Window → Window
unfolding ack
acked_all [] w = w
acked_all (seq ∷ seqs) w = acked_all seqs (ack seq w).1

-- One round: the seq of the batch, if it may go out.
abbrev pub Round : Type 0
Round = Acquired × Window

unfoldable pub round : Turn → Window → Round
unfolding acquire acked_all
round t w = acquire t.stop (acked_all t.acks w)

module _ (sync_type : String) (meta : Chat) (progress : Option ℕ) where
  abbrev pub batch_of : ℕ → List Message → HistoryBatch
  batch_of seq messages = record {
    seq = seq;
    sync_type = sync_type;
    chat = meta;
    messages = messages;
    progress = progress;
  }

  abbrev pub Outcome : Type 0
  Outcome = List HistoryBatch × Delivered × Window

  -- A batch that is granted goes out before the others; one that waits tries again.
  abbrev pub emitted : HistoryBatch → Outcome → Outcome
  emitted b (out, how, w) = (b ∷ out, how, w)

  abbrev pub at_round : List Message → Bool → Round → Outcome → Outcome → Outcome
  at_round b stop_after (cancelled, w) next again = ([], was_cancelled, w)
  at_round b stop_after (waits n, w) next again = again
  at_round b true (granted seq, w) next again = ([], was_cancelled, w)
  at_round b false (granted seq, w) next again = emitted (batch_of seq b) next

  -- The loop over the batches.
  unfoldable pub send_batches : List (List Message) → List Turn → Window → Outcome
  unfolding round
  send_batches [] turns w = ([], all_sent, w)
  send_batches (b ∷ bs) [] w = ([], still_waiting, w)
  send_batches (b ∷ bs) (t ∷ ts) w =
      let r = round t w in
      let next = send_batches bs ts r.1 in
      let again = send_batches (b ∷ bs) ts r.1 in at_round b t.stop_after r next again

  -- historyConversation from Filter on: the outcome, and the caps.
  unfoldable pub history_conversation :
      (Message → ℕ) → ℕ → ℕ → List Message → List Turn → Caps → Window → Outcome × Caps
  unfolding filter send_batches split
  history_conversation encoded_size chat_size now msgs turns caps w =
      let (kept, dropped, caps') = filter caps now meta.jid msgs in
      (send_batches (split encoded_size chat_size kept) turns w, caps')
