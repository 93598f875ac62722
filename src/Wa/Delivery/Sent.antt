-- ===== src/Wa/Delivery/Sent.antt =====
-- What the delivery of internal/wa/historysync.go sends of a conversation, and that it is all of it.
use Prim.Native.String.{String}
use voolo_whatsapp_bridge.Common.{
  ℕ, suc, ◌≡◌, refl, sym, ap, ◌∙◌, subst, Bool, true, false, List, [], ◌∷◌, ◌++◌, Option, map,
  arith, length, ltb, by_test,
}
use voolo_whatsapp_bridge.Protocol.Events.{Message, Chat}
use voolo_whatsapp_bridge.History.Window.{Window, cancelled, granted, waits, acquire, ack}
use voolo_whatsapp_bridge.History.Caps.{Caps, filter}
use voolo_whatsapp_bridge.History.Split.{split}
use voolo_whatsapp_bridge.History.Split.Laws.{joined, joined-split}
use voolo_whatsapp_bridge.Wa.Delivery.{
  HistoryBatch, Turn, Delivered, all_sent, was_cancelled, still_waiting, acked_all, Round, round,
  Outcome, at_round, send_batches, history_conversation,
}

-- Seqs that are handed out one after the other.
abbrev pub CountUp : ℕ → List HistoryBatch → Type 0
CountUp n [] = Unit
CountUp n (b ∷ out) = (b.seq ≡ n) × CountUp (suc n) out

-- What the batches `out` are of the batches `bs`: the first of them, all if everything was sent.
pub record Sends (bs : List (List Message)) (n : ℕ) (r : List HistoryBatch × Delivered × Window)
    : Type 0 where
  pub left : List (List Message)
  pub order : map (λ (b : HistoryBatch). b.messages) r.0 ++ left ≡ bs
  pub whole : r.1 ≡ all_sent → left ≡ []
  pub seqs : CountUp n r.0

-- A round keeps the next seq or hands it out.
acked_all-next : (seqs : List ℕ) (w : Window) → (acked_all seqs w).next ≡ w.next
unfolding acked_all ack
acked_all-next [] w = refl
acked_all-next (s ∷ seqs) w = acked_all-next seqs _

-- The seq that a round hands out, and the next one.
Granted : ℕ → Round → Type 0
Granted n (granted seq, w) = (seq ≡ n) × (w.next ≡ suc n)
Granted n (r, w) = w.next ≡ n

round-Granted : (t : Turn) (w : Window) → Granted w.next (round t w)
unfolding round acquire Granted
round-Granted t w =
    by_test (Granted w.next) t.stop (λ e. acked_all-next t.acks w)
      (λ e.
        by_test (Granted w.next)
          (ltb (length (acked_all t.acks w).outstanding) (acked_all t.acks w).size)
          (λ f. (acked_all-next t.acks w, omega (arith, acked_all-next t.acks w)))
          (λ f. acked_all-next t.acks w))

none_sent :
    (bs : List (List Message)) (n : ℕ) (how : Delivered) (w : Window)
    → (how ≡ all_sent → bs ≡ [])
    → Sends bs n ([], how, w)
none_sent bs n how w h = record { left = bs; order = refl; whole = h; seqs = tt }

module _ (sync_type : String) (meta : Chat) (progress : Option ℕ) where
  at_round-Sends :
      (b : List Message) (bs : List (List Message)) (stop_after : Bool) (r : Round) (n : ℕ)
      (next again : Outcome sync_type meta progress)
      → Granted n r
      → Sends bs r.1.next next
      → Sends (b ∷ bs) r.1.next again
      → Sends (b ∷ bs) n (at_round sync_type meta progress b stop_after r next again)
  unfolding Granted
  at_round-Sends b bs s (cancelled, w) n next again g x y =
      none_sent (b ∷ bs) n was_cancelled w (λ e. ground arith)
  at_round-Sends b bs s (waits k, w) n next again g x y = subst (λ i. Sends (b ∷ bs) i again) g y
  at_round-Sends b bs true (granted seq, w) n next again g x y =
      none_sent (b ∷ bs) n was_cancelled w (λ e. ground arith)
  at_round-Sends b bs false (granted seq, w) n (out, how, v) again g x y = record {
    left = x.left;
    order = ap (λ l. b ∷ l) x.order;
    whole = x.whole;
    seqs = (g.0, subst (λ i. CountUp i out) g.1 x.seqs);
  }

  pub send_batches-Sends :
      (bs : List (List Message)) (turns : List Turn) (w : Window)
      → Sends bs w.next (send_batches sync_type meta progress bs turns w)
  unfolding send_batches
  send_batches-Sends [] turns w = none_sent [] w.next all_sent w (λ e. refl)
  send_batches-Sends (b ∷ bs) [] w = none_sent (b ∷ bs) w.next still_waiting w (λ e. ground arith)
  send_batches-Sends (b ∷ bs) (t ∷ ts) w =
      at_round-Sends b bs t.stop_after (round t w) w.next _ _ (round-Granted t w)
        (send_batches-Sends bs ts _) (send_batches-Sends (b ∷ bs) ts _)

append_assoc : (xs ys zs : List Message) → (xs ++ ys) ++ zs ≡ xs ++ (ys ++ zs)
append_assoc [] ys zs = refl
append_assoc (x ∷ xs) ys zs = ap (λ l. x ∷ l) (append_assoc xs ys zs)

joined-append : (xs ys : List (List Message)) → joined (xs ++ ys) ≡ joined xs ++ joined ys
unfolding joined
joined-append [] ys = refl
joined-append (x ∷ xs) ys =
    ap (λ l. x ++ l) (joined-append xs ys) ∙ sym (append_assoc x (joined xs) (joined ys))

-- Whenever acknowledgements and cancellations come: the batches of a conversation that are sent carry
-- seqs that count up from the window's next one and, joined, the start of what Filter keeps; all
-- of it if the delivery was not cancelled and does not wait.
pub history_conversation-Sent :
    (sync_type : String) (meta : Chat) (progress : Option ℕ) (encoded_size : Message → ℕ)
    (chat_size now : ℕ) (msgs : List Message) (turns : List Turn) (caps : Caps) (w : Window)
    → (let ((out, how, w'), caps') =
          history_conversation sync_type meta progress encoded_size chat_size now msgs turns caps
            w in
        CountUp w.next out
        × ((left : List Message) × (joined (map (λ (b : HistoryBatch). b.messages) out) ++ left
              ≡ (filter caps now meta.jid msgs).0)
            × (how ≡ all_sent → left ≡ [])))
unfolding history_conversation joined
history_conversation-Sent sync_type meta progress encoded_size chat_size now msgs turns caps w =
    (s.seqs, (joined s.left, sent, λ e. ap joined (s.whole e)))
  where
    kept : List Message
    kept = (filter caps now meta.jid msgs).0

    batches : List (List Message)
    batches = split encoded_size chat_size kept

    s : Sends batches w.next (send_batches sync_type meta progress batches turns w)
    s = send_batches-Sends sync_type meta progress batches turns w

    out : List HistoryBatch
    out = (send_batches sync_type meta progress batches turns w).0

    sent : joined (map (λ (b : HistoryBatch). b.messages) out) ++ joined s.left ≡ kept
    sent =
        sym (joined-append (map (λ (b : HistoryBatch). b.messages) out) s.left)
        ∙ ap joined s.order
        ∙ joined-split encoded_size chat_size kept
