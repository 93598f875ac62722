-- ===== src/Wa/Live/Moves/Events.antt =====
-- The moves of the handlers of internal/wa/events.go.
use Prim.Native.String.{String, len}
use voolo_whatsapp_bridge.Common.{
  ℕ, zero, suc, ltb, ◌≡◌, refl, ap, Bool, true, not, ◌&&◌, List, [], ◌∷◌, Option, none, some,
  by_test, if◌then◌else◌,
}
use voolo_whatsapp_bridge.Protocol.Events.{Message}
use voolo_whatsapp_bridge.Store.Tables.{MediaDesc}
use voolo_whatsapp_bridge.Store.Chats.{chat_at, is_lid}
use voolo_whatsapp_bridge.Wa.Live.{
  Spelling, message_line, Receipt, ReceiptKind, ChatUpdate, Live, Disk, say,
}
use voolo_whatsapp_bridge.Wa.Live.Jid.{Jids, Client}
use voolo_whatsapp_bridge.Wa.Live.Chats.{
  is_given, marked, recorded, mark_all, mark_reported, first_seen, ensure_chat, ensure_contact,
}
use voolo_whatsapp_bridge.Wa.Live.Incoming.{
  Content, Change, revoke, other_change, edit, Incoming, id_ok, user_ok, named_sender, sender_of,
  with_content, message_of, desc_of, to_message,
}
use voolo_whatsapp_bridge.Wa.Live.Messages.{
  alt_of, changed, with_desc, ensure_contacts, reported_message, by_kind, in_chat, on_message,
  undecryptable, unreadable_in, on_undecryptable,
}
use voolo_whatsapp_bridge.Wa.Live.Receipts.{
  IncomingReceipt, receipts, receipts_in, of_kind, is_read_self, on_receipt, updated, chat_update,
}
use voolo_whatsapp_bridge.Wa.Live.Moves.{
  present, silent, says, says_message, LiveMoves, no_move, then_move, LiveMoves-trans, one_move,
}
use voolo_whatsapp_bridge.Wa.Live.Moves.Present.{present-new, Moves-present}
use voolo_whatsapp_bridge.Wa.Live.Moves.Operations.{
  ensure_contact-Moves, ensure_group-Moves, ensure_chat-Moves, chat_jid-Moves,
}

module _ (c : Spelling) {J : Type 0} (jids : Jids J) (cli : Client J) (d : Disk) where
  -- Behind ensureChat the chat is reported.
  seen-present :
      (jid : String) (is_group : Bool) (b : Live) (p : Option Bool)
      → chat_at jid b.reported ≡ p
      → present jid
          (first_seen c jids cli d jid is_group (
            recorded d
              (marked jid p
                ([], (jid, ltb 4 (len jid) && is_lid jid) ∷ b.reported)
                ([], b.reported))
              b)).reported
        ≡ true
  unfolding say
  seen-present jid is_group b none e = present-new jid _ b.reported
  seen-present jid is_group b (some p) e = ap is_given e

  ensure_chat-present :
      (jid : String) (is_group : Bool) (b : Live)
      → present jid (ensure_chat c jids cli d jid is_group b).reported ≡ true
  unfolding ensure_chat mark_reported mark_all
  ensure_chat-present jid is_group b =
      by_test (λ (t : Live). present jid t.reported ≡ true) is_group
        (λ e. Moves-present {b = after} jid (ensure_group-Moves c jids cli d jid after) there)
        (λ e. Moves-present {b = after} jid (ensure_contact-Moves c jids cli d jid after) there)
    where
      after : Live
      after = first_seen c jids cli d jid is_group (mark_reported d (jid ∷ []) b)

      there : present jid after.reported ≡ true
      there = seen-present jid is_group b (chat_at jid b.reported) refl

  -- onMessage.
  changed-Moves :
      (e : Incoming J) (chat by target : String) (h : Change) (b : Live)
      → LiveMoves b (changed c jids cli d e chat by target h b)
  changed-Moves e chat by target revoke b = one_move (says _ refl)
  changed-Moves e chat by target (edit none ts) b = no_move
  changed-Moves e chat by target (edit (some k) ts) b = one_move (says _ refl)
  changed-Moves e chat by target other_change b = no_move

  with_desc-Moves : (o : Option MediaDesc) (b : Live) → LiveMoves b (with_desc c jids cli d o b)
  with_desc-Moves none b = no_move
  with_desc-Moves (some desc) b = one_move (silent refl refl)

  ensure_contacts-Moves :
      (js : List String) (b : Live) → LiveMoves b (ensure_contacts c jids cli d js b)
  unfolding ensure_contacts
  ensure_contacts-Moves [] b = no_move
  ensure_contacts-Moves (j ∷ js) b =
      LiveMoves-trans (ensure_contact-Moves c jids cli d j b) (ensure_contacts-Moves js _)

  reported-Moves :
      (e : Incoming J) (m : Message) (o : Option MediaDesc) (b : Live)
      → LiveMoves b (reported_message c jids cli d e m.chat_jid (some (m, o), b))
  reported-Moves e m o b =
      LiveMoves-trans
        (LiveMoves-trans (LiveMoves-trans seen (with_desc-Moves o _)) (
          one_move (
            says_message m (
              Moves-present m.chat_jid (with_desc-Moves o _)
                (ensure_chat-present m.chat_jid e.is_group b)))))
        (LiveMoves-trans named (ensure_contacts-Moves m.mentions _))
    where
      after : Live
      after =
          say (message_line m)
            (with_desc c jids cli d o (ensure_chat c jids cli d m.chat_jid e.is_group b))

      seen : LiveMoves b (ensure_chat c jids cli d m.chat_jid e.is_group b)
      seen = ensure_chat-Moves c jids cli d m.chat_jid e.is_group b

      named : LiveMoves after (
          if e.is_group && not m.from_me
          then ensure_contact c jids cli d m.sender_jid after
          else after)
      named =
          by_test (LiveMoves after) (e.is_group && not m.from_me)
            (λ f. ensure_contact-Moves c jids cli d m.sender_jid after) (λ f. no_move)

  with_content-Moves :
      (e : Incoming J) (chat : String) (k : Option Content) (b : Live)
      → LiveMoves b (reported_message c jids cli d e chat (with_content c jids cli e chat k b))
  with_content-Moves e chat none b = no_move
  with_content-Moves e chat (some k) b =
      by_test
        (λ (r : Option (Message × Option MediaDesc) × Live).
          LiveMoves b (reported_message c jids cli d e chat r))
        (id_ok c e.id && user_ok c (sender_of c jids cli e chat))
        (λ f. LiveMoves-trans (one_move (silent refl refl)) (
          reported-Moves e (message_of c jids cli e chat k) (desc_of c jids cli k chat e.id e.ts)
            _))
        (λ f. no_move)

  by_kind-Moves :
      (e : Incoming J) (chat : String) (h : Option (String × Change))
      (r : Option (String × ℕ × String)) (b : Live)
      → LiveMoves b (by_kind c jids cli d e chat h r b)
  unfolding to_message
  by_kind-Moves e chat (some (target, h)) r b =
      by_test (LiveMoves b) (id_ok c target) (λ f. changed-Moves e chat _ target h b) (λ f. no_move)
  by_kind-Moves e chat none (some (target, ts, text)) b =
      by_test (LiveMoves b) (id_ok c target && user_ok c (named_sender c jids cli e))
        (λ f. one_move (says _ refl)) (λ f. no_move)
  by_kind-Moves e chat none none b = with_content-Moves e chat e.content b

  in_chat-Moves :
      {a : Live} (e : Incoming J) (r : Option String × Live)
      → LiveMoves a r.1
      → LiveMoves a (in_chat c jids cli d e r)
  in_chat-Moves e (none, b) m = m
  in_chat-Moves e (some chat, b) m = LiveMoves-trans m (by_kind-Moves e chat e.change e.reaction b)

  pub on_message-Moves : (e : Incoming J) (b : Live) → LiveMoves b (on_message c jids cli d e b)
  unfolding on_message
  on_message-Moves e b =
      by_test (LiveMoves b) (e.history && e.from_me) (λ f. one_move (silent refl refl))
        (λ f. in_chat-Moves e _ (chat_jid-Moves c jids cli d e.chat (alt_of c jids cli d e) b))

  -- onUndecryptable.
  unreadable-Moves :
      {a : Live} (e : Incoming J) (r : Option String × Live)
      → LiveMoves a r.1
      → LiveMoves a (unreadable_in c jids cli d e r)
  unreadable-Moves e (none, b) m = m
  unreadable-Moves {a} e (some chat, b) m =
      by_test (LiveMoves a) (id_ok c e.id && user_ok c (named_sender c jids cli e))
        (λ f. then_move (LiveMoves-trans m (ensure_chat-Moves c jids cli d chat e.is_group b)) (
          says_message (undecryptable c jids cli d e chat) (ensure_chat-present chat e.is_group b)))
        (λ f. m)

  pub on_undecryptable-Moves :
      (view_once : Bool) (e : Incoming J) (b : Live)
      → LiveMoves b (on_undecryptable c jids cli d view_once e b)
  unfolding on_undecryptable
  on_undecryptable-Moves view_once e b =
      by_test (LiveMoves b) view_once (λ f. no_move)
        (λ f. unreadable-Moves e _ (chat_jid-Moves c jids cli d e.chat _ b))

  -- onReceipt and chatUpdate.
  receipts-Moves :
      (fuel : ℕ) (r : Receipt) (ids : List String) (b : Live) → LiveMoves b (receipts fuel r ids b)
  unfolding receipts
  receipts-Moves zero r ids b = no_move
  receipts-Moves (suc fuel) r [] b = no_move
  receipts-Moves (suc fuel) r (i ∷ ids) b =
      LiveMoves-trans (one_move (says _ refl)) (receipts-Moves fuel r _ _)

  receipts_in-Moves :
      {a : Live} (e : IncomingReceipt J) (k : ReceiptKind) (r : Option String × Live)
      → LiveMoves a r.1
      → LiveMoves a (receipts_in c jids cli d e k r)
  receipts_in-Moves e k (none, b) m = m
  receipts_in-Moves e k (some chat, b) m = LiveMoves-trans m (receipts-Moves _ _ _ b)

  of_kind-Moves :
      (e : IncomingReceipt J) (k : Option ReceiptKind) (b : Live)
      → LiveMoves b (of_kind c jids cli d e k b)
  of_kind-Moves e none b = no_move
  of_kind-Moves e (some k) b =
      by_test (LiveMoves b) (e.from_me && not (is_read_self k)) (λ f. no_move)
        (λ f. receipts_in-Moves e k _ (chat_jid-Moves c jids cli d e.chat _ b))

  pub on_receipt-Moves :
      (e : IncomingReceipt J) (b : Live) → LiveMoves b (on_receipt c jids cli d e b)
  unfolding on_receipt
  on_receipt-Moves e b = of_kind-Moves e e.kind b

  updated-Moves :
      {a : Live} (set : ChatUpdate → ChatUpdate) (r : Option String × Live)
      → LiveMoves a r.1
      → LiveMoves a (updated c jids cli d set r)
  updated-Moves set (none, b) m = m
  updated-Moves set (some jid, b) m = then_move m (says _ refl)

  pub chat_update-Moves :
      (j : J) (set : ChatUpdate → ChatUpdate) (b : Live)
      → LiveMoves b (chat_update c jids cli d j set b)
  unfolding chat_update
  chat_update-Moves j set b = updated-Moves set _ (chat_jid-Moves c jids cli d j jids.empty b)
