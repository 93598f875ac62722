-- ===== src/Protocol/Writer/Laws.antt =====
-- What one emit of internal/protocol/envelope.go leaves, when the event is its own line.
use voolo_whatsapp_bridge.Common.{
  suc, ◌≡◌, refl, ap, Bool, true, false, ◌&&◌, ◌∷◌, Option, by_test_false, by_test_true,
}
use voolo_whatsapp_bridge.Protocol.Writer.{Writer, EmitError, line, emit_event}

and_false : (q : Bool) → (q && false) ≡ false
and_false true = refl
and_false false = refl

module _ {L : Type 0} (n : L) (w : Writer L) where
  pub emit_final : (emit_event line false true n w).1 ≡ record w { written = n ∷ w.written }
  unfolding emit_event
  emit_final =
      ap (λ (o : Option EmitError × Writer L). o.1)
        (by_test_false (w.quiesced && false) _ _ (and_false w.quiesced))

  pub emit_open :
      w.quiesced ≡ false
      → (emit_event line false false n w).1 ≡ record w { written = n ∷ w.written }
  unfolding emit_event
  emit_open e =
      ap (λ (o : Option EmitError × Writer L). o.1)
        (by_test_false (w.quiesced && true) _ _ (ap (λ q. q && true) e))

  pub emit_quiesced :
      w.quiesced ≡ true → (emit_event line false false n w).1 ≡ record w { dropped = suc w.dropped }
  unfolding emit_event
  emit_quiesced e =
      ap (λ (o : Option EmitError × Writer L). o.1)
        (by_test_true (w.quiesced && true) _ _ (ap (λ q. q && true) e))
