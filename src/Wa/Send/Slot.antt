-- ===== src/Wa/Send/Slot.antt =====
-- The single send slot of internal/wa/commands.go, and what one send_text does.
use Prim.Native.String.{String}
use text.Mathlib.Text.{◌==◌ as str_eq}
use voolo_whatsapp_bridge.Common.{
  ℕ, ◌/◌, ◌≡◌, ◌⊎◌, inl, inr, refl, sym, ap, ◌∙◌, subst, Bool, true, false, not, List, [], ◌∷◌,
  ◌++◌, Option, none, some, count_of, All, by_test, by_test_false, by_test_true,
}
use voolo_whatsapp_bridge.Protocol.Events.{busy, ErrorCode, new_error}
use voolo_whatsapp_bridge.Store.Tables.{Store, Result, ok, err_closed, io_error}
use voolo_whatsapp_bridge.Store.Outbox.{reserve_outbox, outbox_known}
use voolo_whatsapp_bridge.Wa.Lru.{Lru, get}
use voolo_whatsapp_bridge.Wa.Backstop.{backstop_allows}
use voolo_whatsapp_bridge.Wa.Send.{
  Event, failed, rate_signal, send_result, Reply, ContextInfo, Handed, Bridge, World, fail, ready,
  reserved, checked, looked_up, with_slot, after_ready, begin_send, is_rate_limited, answered,
  deliver, author, sender_key, context_info, go_on, send_text,
}

-- What beginSend promises when the slot was free: a refusal writes one error, with the slot free, and
-- hands nothing over; else the slot is taken, no event was written, and the id was looked up as new
-- and the backstop asked.
abbrev Begun : World → String → String → Bridge → Bool × Bridge → Type 0
Begun w id outbox_id b (false, b') =
    (b'.sending ≡ false)
    × (b'.handed_over ≡ b.handed_over)
    × ((code : ErrorCode) × (b'.events ≡ (failed (new_error id code), false) ∷ b.events))
Begun w id outbox_id b (true, b') =
    (b'.handed_over ≡ b.handed_over)
    × (b'.events ≡ b.events)
    × ((outbox_known w.known_fails outbox_id b.store).0 ≡ ok false)
    × ((backstop_allows b.sends w.check_at).0 ≡ true)

module _ (w : World) (id outbox_id : String) (b : Bridge) where
  reserved-Begun :
      (sends : List ℕ) (r : Result Bool × Store)
      → (outbox_known w.known_fails outbox_id b.store).0 ≡ ok false
      → (backstop_allows b.sends w.check_at).0 ≡ true
      → Begun w id outbox_id b (reserved id r (record b { sending = true; sends = sends }))
  reserved-Begun sends (ok true, s') k a = (refl, refl, (_, refl))
  reserved-Begun sends (ok false, s') k a = (refl, refl, k, a)
  reserved-Begun sends (err_closed, s') k a = (refl, refl, (_, refl))
  reserved-Begun sends (io_error, s') k a = (refl, refl, (_, refl))

  checked-Begun :
      (c : Bool × List ℕ)
      → backstop_allows b.sends w.check_at ≡ c
      → (outbox_known w.known_fails outbox_id b.store).0 ≡ ok false
      → Begun w id outbox_id b (checked w id outbox_id c (record b { sending = true }))
  checked-Begun (false, sends) e k = (refl, refl, (_, refl))
  checked-Begun (true, sends) e k =
      reserved-Begun sends
        (reserve_outbox w.insert_fails w.delete_fails outbox_id (w.check_at / 1000000) b.store) k
        (ap (λ c. c.0) e)

  looked_up-Begun :
      (r : Result Bool)
      → (outbox_known w.known_fails outbox_id b.store).0 ≡ r
      → Begun w id outbox_id b (looked_up w id outbox_id r (record b { sending = true }))
  looked_up-Begun (ok true) e = (refl, refl, (_, refl))
  looked_up-Begun (ok false) e = checked-Begun (backstop_allows b.sends w.check_at) refl e
  looked_up-Begun err_closed e = (refl, refl, (_, refl))
  looked_up-Begun io_error e = (refl, refl, (_, refl))

  after_ready-Begun :
      (o : Option ErrorCode)
      → b.sending ≡ false
      → Begun w id outbox_id b (after_ready w id outbox_id o b)
  after_ready-Begun (some code) f =
      (f, refl, (code, ap (λ s. (failed (new_error id code), s) ∷ b.events) f))
  after_ready-Begun none f =
      subst (Begun w id outbox_id b)
        (sym (by_test_false b.sending _ (with_slot w id outbox_id (record b { sending = true })) f))
        (by_test (Begun w id outbox_id b) (not w.chat_known) (λ u. (refl, refl, (_, refl)))
          (λ u. looked_up-Begun (outbox_known w.known_fails outbox_id b.store).0 refl))

  begin_send-Begun : b.sending ≡ false → Begun w id outbox_id b (begin_send w id outbox_id b)
  unfolding begin_send
  begin_send-Begun f = after_ready-Begun (ready w) f

-- Whether an event answers a command.
abbrev pub is_reply : Event × Bool → Bool
is_reply (rate_signal, s) = false
is_reply (_, s) = true

-- Some new events in front of the old ones: written with the slot free, and one answer among them.
abbrev pub AnsweredOnce : Bridge → Bridge → Type 0
AnsweredOnce b b' =
    (new : List (Event × Bool)) × (b'.events ≡ new ++ b.events)
    × All (λ e. e.1 ≡ false) new
    × (count_of is_reply new ≡ 1)

abbrev Kept : Bridge → Bridge → Type 0
Kept b b' = (b'.handed_over ≡ b.handed_over) × (b'.events ≡ b.events)

author-Kept :
    (q : Reply) (key : String) (found : Option String × Lru) (b : Bridge)
    → Kept b (author q key found b).1
author-Kept q key (some p, raw) b = (refl, refl)
author-Kept q key (none, raw) b =
    by_test (λ (r : Option String × Bridge). Kept b r.1) (str_eq q.quoted_sender_jid "")
      (λ e. (refl, refl)) (λ e. (refl, refl))

context_info-Kept : (chat : String) (q : Reply) (b : Bridge) → Kept b (context_info chat q b).1
unfolding context_info
context_info-Kept chat q b =
    by_test (λ (r : Option ContextInfo × Bridge). Kept b r.1) q.forwarded (λ e. (refl, refl))
      (λ e.
        by_test (λ (r : Option ContextInfo × Bridge). Kept b r.1) (str_eq q.quoted_message_id "")
          (λ e'. (refl, refl))
          (λ e'.
            author-Kept q (sender_key chat q.quoted_message_id)
              (get (sender_key chat q.quoted_message_id) b.raw_senders) b))

-- What deliver promises.
abbrev Delivered : Handed → Bridge → Bridge → Type 0
Delivered msg b b' = (b'.handed_over ≡ msg ∷ b.handed_over) × AnsweredOnce b b'

answered-Once :
    (w : World) (id outbox_id : String) (o : Option String) (b : Bridge)
    → b.sending ≡ false
    → ((answered w id outbox_id o b).handed_over ≡ b.handed_over)
      × AnsweredOnce b (answered w id outbox_id o b)
answered-Once w id outbox_id (some message) b f =
    (refl, ((send_result id outbox_id message, b.sending) ∷ [], refl, (f, tt), refl))
answered-Once w id outbox_id none b f =
    by_test
      (λ (b' : Bridge).
        ((fail id w.error_code b').handed_over ≡ b.handed_over)
        × AnsweredOnce b (fail id w.error_code b'))
      (is_rate_limited w.error_code)
      (λ e. (
        refl,
        (
          (failed (new_error id w.error_code), b.sending) ∷ (rate_signal, b.sending) ∷ [],
          refl,
          (f, (f, tt)),
          refl,
        ),
      ))
      (λ e. (refl, ((failed (new_error id w.error_code), b.sending) ∷ [], refl, (f, tt), refl)))

deliver-Delivered :
    (w : World) (id : String) (msg : Handed) (b : Bridge) → Delivered msg b (deliver w id msg b)
unfolding deliver
deliver-Delivered w id msg b = answered-Once w id msg.outbox_id w.answer _ refl

-- What one send_text promises when the slot was free.
abbrev Outcome : World → String → Bridge → Bridge → Type 0
Outcome w outbox_id b b' =
    (b'.sending ≡ false)
    × AnsweredOnce b b'
    × ((b'.handed_over ≡ b.handed_over)
        ⊎ ((msg : Handed) × (b'.handed_over ≡ msg ∷ b.handed_over)
            × (msg.outbox_id ≡ outbox_id)
            × ((outbox_known w.known_fails outbox_id b.store).0 ≡ ok false)
            × ((backstop_allows b.sends w.check_at).0 ≡ true)))

go_on-Outcome :
    (w : World) (id chat outbox_id text : String) (q : Reply) (b : Bridge) (r : Bool × Bridge)
    → Begun w id outbox_id b r
    → Outcome w outbox_id b (go_on w id chat outbox_id text q r)
go_on-Outcome w id chat outbox_id text q b (false, b') (f, h, (code, e)) =
    (f, ((failed (new_error id code), false) ∷ [], e, (refl, tt), refl), inl h)
go_on-Outcome w id chat outbox_id text q b (true, b') (h, e, k, a) =
    let (context, b2) = context_info chat q b' in
    let msg : Handed = record { outbox_id = outbox_id; text = text; context = context } in
    let (h2, e2) = context_info-Kept chat q b' in
    let (h3, (new, e3, free_all, once)) = deliver-Delivered w id msg b2 in
    (
      refl,
      (new, e3 ∙ ap (λ l. new ++ l) (e2 ∙ e), free_all, once),
      inr (msg, h3 ∙ ap (λ l. msg ∷ l) (h2 ∙ h), refl, k, a),
    )

-- A send_text that finds the slot free leaves it free. It writes exactly one answer, and whatever it
-- writes it writes with the slot free. It hands over no message, or one, with its own outbox id, which
-- the store did not know, and only if the backstop allowed a send at the time of the check.
pub send_text_lem :
    (w : World) (id chat outbox_id text : String) (q : Reply) (b : Bridge)
    → b.sending ≡ false
    → let b' = send_text w id chat outbox_id text q b in
      (b'.sending ≡ false)
      × AnsweredOnce b b'
      × ((b'.handed_over ≡ b.handed_over)
          ⊎ ((msg : Handed) × (b'.handed_over ≡ msg ∷ b.handed_over)
              × (msg.outbox_id ≡ outbox_id)
              × ((outbox_known w.known_fails outbox_id b.store).0 ≡ ok false)
              × ((backstop_allows b.sends w.check_at).0 ≡ true)))
unfolding send_text
send_text_lem w id chat outbox_id text q b f =
    go_on-Outcome w id chat outbox_id text q b (begin_send w id outbox_id b)
      (begin_send-Begun w id outbox_id b f)

-- While another send has the slot, a send_text changes nothing but that it writes one error.
pub send_text_busy :
    (w : World) (id chat outbox_id text : String) (q : Reply) (b : Bridge)
    → b.sending ≡ true
    → (code : ErrorCode) × (send_text w id chat outbox_id text q b ≡ fail id code b)
unfolding send_text begin_send
send_text_busy w id chat outbox_id text q b t = refused_all (ready w)
  where
    refused_all :
        (o : Option ErrorCode)
        → (code : ErrorCode) × (go_on w id chat outbox_id text q (after_ready w id outbox_id o b)
            ≡ fail id code b)
    refused_all (some code) = (code, refl)
    refused_all none = (
      busy,
      ap (go_on w id chat outbox_id text q) (by_test_true b.sending (false, fail id busy b) _ t),
    )
