-- ===== src/History/Split.antt =====
-- internal/history/history.go, function Split: one chat's messages in batches.
-- EncodedSize is the length of the JSON text that encoding/json makes: the argument `encoded_size`,
-- and `chat_size` is its value at the chat. The budget may be negative in the source, so the test
-- against it is written with the terms on the other side.
pub mod Laws
use voolo_whatsapp_bridge.Common.{
  ℕ, ◌+◌, Bool, ◌&&◌, ◌||◌, List, [], ◌∷◌, ◌++◌, length, ltb, leb, if◌then◌else◌,
}
use voolo_whatsapp_bridge.Protocol.Events.{Message, max_batch_messages, max_batch_bytes}

-- envelopeOverhead.
abbrev pub envelope_overhead : ℕ
envelope_overhead = 512

module _ (encoded_size : Message → ℕ) (chat_size : ℕ) where
  abbrev pub over_budget : ℕ → Bool
  over_budget n = ltb max_batch_bytes (n + envelope_overhead + chat_size)

  abbrev pub is_full : List Message → ℕ → ℕ → Bool
  is_full cur size ms =
      ltb 0 (length cur) && (leb max_batch_messages (length cur) || over_budget (size + ms))

  -- The loop of Split over the rest of the messages, and the append after it.
  unfoldable pub split_loop : List Message → List Message → ℕ → List (List Message)
  split_loop [] cur size = if ltb 0 (length cur) then cur ∷ [] else []
  split_loop (m ∷ rest) cur size =
      let ms = encoded_size m + 1 in
      let close = cur ∷ split_loop rest (m ∷ []) ms in
      let go_on = split_loop rest (cur ++ m ∷ []) (size + ms) in
      if is_full cur size ms then close else go_on

  unfoldable pub split : List Message → List (List Message)
  unfolding split_loop
  split msgs = split_loop msgs [] 0
