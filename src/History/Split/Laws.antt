-- ===== src/History/Split/Laws.antt =====
-- What Split (internal/history/history.go) promises of its batches.
use mathlib.Core.List.{append_assoc}
use voolo_whatsapp_bridge.Common.{
  ℕ, suc, ◌+◌, ◌≤◌, ◌≡◌, refl, ap, ◌∙◌, ◌⊎◌, inl, inr, true, false, List, [], ◌∷◌, ◌++◌, length,
  length-append, arith, All, Bool-cases, lt→ltb,
}
use voolo_whatsapp_bridge.Protocol.Events.{Message, max_batch_messages, max_batch_bytes}
use voolo_whatsapp_bridge.History.Split.{split, split_loop, is_full, envelope_overhead}

-- The batches one after another.
unfoldable pub joined {ℓ} : {A : Type ℓ} → List (List A) → List A
joined [] = []
joined (b ∷ bs) = b ++ joined bs

module _ (encoded_size : Message → ℕ) (chat_size : ℕ) where
  -- What the messages of a batch take in its line, a comma for each.
  abbrev pub batch_size : List Message → ℕ
  batch_size [] = 0
  batch_size (m ∷ ms) = (encoded_size m + 1) + batch_size ms

  -- Not empty, at most 200 messages, and within the bytes unless it is one message alone.
  abbrev pub FitsBatch : List Message → Type 0
  FitsBatch b =
      (1 ≤ length b)
      × (length b ≤ max_batch_messages)
      × ((length b ≡ 1) ⊎ (batch_size b + envelope_overhead + chat_size ≤ max_batch_bytes))

  batch_size-append : (a b : List Message) → batch_size (a ++ b) ≡ batch_size a + batch_size b
  batch_size-append [] b = omega arith
  batch_size-append (m ∷ a) b = omega (arith, batch_size-append a b)

  joined-split_loop :
      (msgs cur : List Message) (size : ℕ)
      → joined (split_loop encoded_size chat_size msgs cur size) ≡ cur ++ msgs
  unfolding split_loop joined
  joined-split_loop [] [] size = refl
  joined-split_loop [] (m ∷ cur) size = rw (lt→ltb 0 (suc (length cur)) (omega arith))
  joined-split_loop (m ∷ rest) cur size =
      elim (Bool-cases (is_full encoded_size chat_size cur size (encoded_size m + 1))) [
        | inl e ↦ rw e (ap (◌++◌ cur) (joined-split_loop rest (m ∷ []) (encoded_size m + 1)))
        | inr e ↦ rw e (
            joined-split_loop rest (cur ++ m ∷ []) (size + (encoded_size m + 1))
            ∙ append_assoc cur (m ∷ []) rest)
      ]

  -- Splitting loses no message, repeats none and keeps their order.
  pub joined-split : (msgs : List Message) → joined (split encoded_size chat_size msgs) ≡ msgs
  unfolding split
  joined-split msgs = joined-split_loop msgs [] 0

  abbrev Pending : List Message → ℕ → Type 0
  Pending cur size = (cur ≡ []) × (size ≡ 0) ⊎ FitsBatch cur × (size ≡ batch_size cur)

  one-FitsBatch : (m : Message) → FitsBatch (m ∷ [])
  one-FitsBatch m = (omega arith, omega arith, inl refl)

  full-FitsBatch :
      (cur : List Message) (size ms : ℕ)
      → Pending cur size
      → is_full encoded_size chat_size cur size ms ≡ true
      → FitsBatch cur
  full-FitsBatch cur size ms (inl p) e = ground arith
  full-FitsBatch cur size ms (inr p) e = p.0

  grown-FitsBatch :
      (cur : List Message) (m : Message) (size : ℕ)
      → Pending cur size
      → is_full encoded_size chat_size cur size (encoded_size m + 1) ≡ false
      → FitsBatch (cur ++ m ∷ []) × (size + (encoded_size m + 1) ≡ batch_size (cur ++ m ∷ []))
  grown-FitsBatch cur m size p e =
      ground (arith, batch_size-append cur (m ∷ []), length-append cur (m ∷ []))

  split_loop-FitsBatch :
      (msgs cur : List Message) (size : ℕ)
      → Pending cur size
      → All FitsBatch (split_loop encoded_size chat_size msgs cur size)
  unfolding split_loop
  split_loop-FitsBatch [] [] size p = tt
  split_loop-FitsBatch [] (m ∷ cur) size (inl p) = cc (p.0)
  split_loop-FitsBatch [] (m ∷ cur) size (inr p) =
      rw (lt→ltb 0 (suc (length cur)) (omega arith)) (p.0, tt)
  split_loop-FitsBatch (m ∷ rest) cur size p =
      elim (Bool-cases (is_full encoded_size chat_size cur size (encoded_size m + 1))) [
        | inl e ↦ rw e (
          full-FitsBatch cur size (encoded_size m + 1) p e,
          split_loop-FitsBatch rest (m ∷ []) (encoded_size m + 1)
              (inr (one-FitsBatch m, omega arith)),
        )
        | inr e ↦ rw e (
            split_loop-FitsBatch rest (cur ++ m ∷ []) (size + (encoded_size m + 1))
              (inr (grown-FitsBatch cur m size p e)))
      ]

  -- Every batch has between 1 and 200 messages and fits its line's budget, but for a single message
  -- that is too large for any batch.
  pub split-FitsBatch : (msgs : List Message) → All FitsBatch (split encoded_size chat_size msgs)
  unfolding split
  split-FitsBatch msgs = split_loop-FitsBatch msgs [] 0 (inl (refl, refl))
