-- ===== src/Examples/HistoryRuns.antt =====
-- Runs of internal/history/history.go: a window of two batches, and one chat's history.
use Prim.Native.String.{String}
use voolo_whatsapp_bridge.Common.{
  ℕ, ◌≤◌, ◌<◌, ◌≡◌, refl, false, List, [], ◌∷◌, ◌++◌, none, length, arith, All,
}
use mathlib.Core.List.{Perm}
use voolo_whatsapp_bridge.Protocol.Events.{Message}
use voolo_whatsapp_bridge.History.Window.{
  Window, new_window, acquire, waits, outstanding_count, Call, acquires, acks, step, run,
}
use voolo_whatsapp_bridge.History.Window.Runs.{Below, run-new_window-bounded, acquire_wakes}
use voolo_whatsapp_bridge.History.Caps.{Caps, recent, filter}
use voolo_whatsapp_bridge.History.Caps.Laws.{
  passed, Chunk, filter_keeps_newest, passed-le-max_per_chat,
}
use voolo_whatsapp_bridge.History.Split.{split}
use voolo_whatsapp_bridge.History.Split.Laws.{FitsBatch, split-FitsBatch}

-- Three batches are wanted of a window of two; then the first is acknowledged.
abbrev calls : List Call
calls = acquires false ∷ acquires false ∷ acquires false ∷ acks 1 ∷ acquires false ∷ []

abbrev full : Window
full = record { size = 2; next = 3; outstanding = 2 ∷ 1 ∷ []; changed = 0 }

bounded_example :
    (outstanding_count (run (new_window 2) calls) ≤ 2)
    × Below (run (new_window 2) calls).next (run (new_window 2) calls).outstanding
bounded_example = run-new_window-bounded 2 calls

full_waits : acquire false full ≡ (waits 0, full)
unfolding acquire
full_waits = refl

room_after : length (run full (acks 1 ∷ [])).outstanding < (run full (acks 1 ∷ [])).size
unfolding run step
room_after = omega arith

wakes_example : 0 < (run full (acks 1 ∷ [])).changed
wakes_example = acquire_wakes full 0 (acks 1 ∷ []) full_waits room_after

abbrev message : String → ℕ → Message
message id ts = record {
  chat_jid = "a@s";
  id = id;
  sender_jid = "b@s";
  from_me = false;
  ts = ts;
  kind = "text";
  text = "x";
  push_name = "";
  quoted = none;
  mentions = [];
  mention_lids = [];
  forwarded = false;
  edited = false;
  media = none;
}

abbrev messages : List Message
messages =
    message "1" 20000 ∷ message "2" 500000000 ∷ message "3" 400000000 ∷ message "4" 300000000 ∷ []

abbrev caps : Caps
caps = record { days = 3; max_per_chat = 2; counts = λ _. 0 }

newest_example :
    (old : List Message) × Perm
      ((filter caps 500000000 "a@s" messages).0 ++ old)
      (recent caps 500000000 messages)
    × All (λ o. All (λ m. o.ts ≤ m.ts) (filter caps 500000000 "a@s" messages).0) old
newest_example = filter_keeps_newest caps 500000000 "a@s" messages

abbrev chunks : List Chunk
chunks =
    (500000000, "a@s", messages) ∷ (500000001, "c@s", messages) ∷ (500000002, "a@s", messages) ∷ []

passed_example : passed caps chunks "a@s" ≤ 2
passed_example = passed-le-max_per_chat 3 2 chunks "a@s"

-- Messages of 300,000 bytes: two to a batch.
abbrev size : Message → ℕ
size m = 300000

fits_example : All (FitsBatch size 100) (split size 100 messages)
fits_example = split-FitsBatch size 100 messages
