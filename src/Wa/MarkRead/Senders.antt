-- ===== src/Wa/MarkRead/Senders.antt =====
-- Whose messages a mark_read (internal/wa/commands.go) can send receipts for.
use Prim.Native.String.{String}
use text.Mathlib.Text.{◌==◌ as str_eq}
use voolo_whatsapp_bridge.Common.{
  ◌≡◌, ◌≢◌, inl, inr, refl, sym, ap, ◌∙◌, Bool, true, false, not, List, [], ◌∷◌, Option, none, some,
  All, Bool-cases, by_test, by_test_true, by_test_false,
}
use voolo_whatsapp_bridge.Protocol.Events.{ErrorCode}
use voolo_whatsapp_bridge.Wa.Lru.{Lru, get}
use voolo_whatsapp_bridge.Wa.Lru.Laws.{IsValid, get-IsValid, get-get}
use voolo_whatsapp_bridge.Wa.Send.{Bridge, World, ready, sender_key}
use voolo_whatsapp_bridge.Wa.MarkRead.{
  Receipts, other_sender, check_senders, with_senders, read_ready, mark_read,
}

-- The cache names no other sender than this one for a message.
abbrev pub NotOther : String → String → Lru → String → Type 0
NotOther chat sender l m = other_sender sender (get (sender_key chat m) l).0 ≡ false

All-moved :
    (chat sender k : String) (l : Lru) (ms : List String)
    → IsValid l
    → All (NotOther chat sender (get k l).1) ms
    → All (NotOther chat sender l) ms
All-moved chat sender k l [] i a = tt
All-moved chat sender k l (m ∷ ms) i a = (
  ap (other_sender sender) (sym (get-get k (sender_key chat m) l i)) ∙ a.0,
  All-moved chat sender k l ms i a.1,
)

check_senders-NotOther :
    (chat sender : String) (ms : List String) (l : Lru)
    → IsValid l
    → (check_senders chat sender ms l).0 ≡ true
    → All (NotOther chat sender l) ms
unfolding check_senders
check_senders-NotOther chat sender [] l i e = tt
check_senders-NotOther chat sender (m ∷ ms) l i e =
    let found = get (sender_key chat m) l in
    elim (Bool-cases (other_sender sender found.0)) [
      | inl o ↦
          elim (false_not (
            sym (
              ap (λ r. r.0)
                (by_test_true (other_sender sender found.0) (false, found.1)
                  (check_senders chat sender ms found.1) o))
            ∙ e)) [ ]
      | inr o ↦ (
        o,
        All-moved chat sender (sender_key chat m) l ms i (
            check_senders-NotOther chat sender ms found.1 (get-IsValid (sender_key chat m) l i) (
              sym (
                ap (λ r. r.0)
                  (by_test_false (other_sender sender found.0) (false, found.1)
                    (check_senders chat sender ms found.1) o))
              ∙ e)),
      )
    ]
  where
    false_not : false ≢ true
    false_not h = cc

-- With a sender named, receipts are passed to WhatsApp only if the cache of senders names no other
-- sender for any of the messages.
pub mark_read-NotOther :
    (w : World) (parses : Bool) (id : String) (c : Receipts) (b : Bridge)
    → IsValid b.senders
    → str_eq c.sender_jid "" ≡ false
    → (mark_read w parses id c b).0 ≡ true
    → All (NotOther c.chat_jid c.sender_jid b.senders) c.message_ids
unfolding mark_read
mark_read-NotOther w parses id c b i n = by_ready (ready w)
  where
    Passed : Bool × Bridge → Type 0
    Passed r = r.0 ≡ true → All (NotOther c.chat_jid c.sender_jid b.senders) c.message_ids

    by_check :
        (r : Bool × Lru)
        → check_senders c.chat_jid c.sender_jid c.message_ids b.senders ≡ r
        → Passed (with_senders w id r b)
    by_check (false, l) e p = cc
    by_check (true, l) e p =
        check_senders-NotOther c.chat_jid c.sender_jid c.message_ids b.senders i (ap (λ r. r.0) e)

    by_ready : (o : Option ErrorCode) → Passed (read_ready w parses id c o b)
    by_ready (some code) = λ p. cc
    by_ready none =
        by_test Passed (not parses) (λ e p. cc)
          (λ e.
            by_test Passed (not w.chat_known) (λ e' p. cc)
              (λ e'.
                by_test Passed (str_eq c.sender_jid "") (λ t p. cc)
                  (λ t.
                    by_check (check_senders c.chat_jid c.sender_jid c.message_ids b.senders) refl)))
