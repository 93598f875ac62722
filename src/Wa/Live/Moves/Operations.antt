-- ===== src/Wa/Live/Moves/Operations.antt =====
-- The moves that each operation of internal/wa/events.go makes.
use Prim.Native.String.{String, len}
use text.Mathlib.Text.{◌==◌ as str_eq}
use voolo_whatsapp_bridge.Common.{
  ltb, ◌≡◌, refl, Bool, not, ◌&&◌, ◌||◌, List, [], ◌∷◌, Option, none, some, by_test,
}
use voolo_whatsapp_bridge.Store.Chats.{chat_at, is_lid}
use voolo_whatsapp_bridge.Wa.Live.{Spelling, contact_line, Contact, Live, Disk, say, has}
use voolo_whatsapp_bridge.Wa.Live.Jid.{Jids, Client, reportable_chat, is_hidden, own_jid, user_jid}
use voolo_whatsapp_bridge.Wa.Live.Chats.{
  is_pending, is_given, alias, mark_all, marked, recorded, swept_as, mark_reported, with_pn,
  chat_jid, swept, sweep_lids, nameless, send_named, send_parsed, contact_of, send_contact,
  ensure_contact, contact_changed, group_known, ensure_group, new_chat, first_seen, ensure_chat,
}
use voolo_whatsapp_bridge.Wa.Live.Moves.{
  silent, says, aliases, reports, LiveMoves, no_move, then_move, LiveMoves-trans, one_move,
}

-- alias.
pub alias-Moves : (d : Disk) (lid pn : String) (b : Live) → LiveMoves b (alias d lid pn b)
unfolding alias say
alias-Moves d lid pn b =
    by_test (LiveMoves b) (is_pending (chat_at lid b.reported))
      (λ e. one_move (aliases lid pn e refl refl)) (λ e. no_move)

-- markReported with one chat, and the line of a new one.
module _ (c : Spelling) {J : Type 0} (jids : Jids J) (cli : Client J) (d : Disk) where
  seen-Moves :
      (jid : String) (is_group : Bool) (b : Live) (p : Option Bool)
      → chat_at jid b.reported ≡ p
      → LiveMoves b (
          first_seen c jids cli d jid is_group (
            recorded d
              (marked jid p
                ([], (jid, ltb 4 (len jid) && is_lid jid) ∷ b.reported)
                ([], b.reported))
              b))
  unfolding say
  seen-Moves jid is_group b none e =
      one_move (reports (new_chat c jids cli d jid is_group _) _ e refl refl)
  seen-Moves jid is_group b (some p) e = one_move (silent refl refl)

  first_seen-Moves :
      (jid : String) (is_group : Bool) (b : Live)
      → LiveMoves b (first_seen c jids cli d jid is_group (mark_reported d (jid ∷ []) b))
  unfolding mark_reported mark_all
  first_seen-Moves jid is_group b = seen-Moves jid is_group b (chat_at jid b.reported) refl

  -- Contacts and groups.
  send_named-Moves : (k : Contact) (b : Live) → LiveMoves b (send_named c jids cli d k b)
  unfolding say
  send_named-Moves k b =
      by_test (LiveMoves b) (nameless c jids cli d k) (λ e. no_move)
        (λ e.
          then_move (one_move (silent {t = record b { contacts = k.jid ∷ b.contacts }} refl refl))
            (says (contact_line k) refl))

  send_parsed-Moves :
      (jid : String) (j : Option J) (b : Live) → LiveMoves b (send_parsed c jids cli d jid j b)
  send_parsed-Moves jid none b = no_move
  send_parsed-Moves jid (some j) b =
      send_named-Moves (contact_of c jids cli d jid j (cli.contact j)) b

  send_contact-Moves : (jid : String) (b : Live) → LiveMoves b (send_contact c jids cli d jid b)
  unfolding send_contact
  send_contact-Moves jid b = send_parsed-Moves jid (jids.parse jid) b

  pub ensure_contact-Moves :
      (jid : String) (b : Live) → LiveMoves b (ensure_contact c jids cli d jid b)
  unfolding ensure_contact
  ensure_contact-Moves jid b =
      by_test (LiveMoves b) (str_eq jid "" || str_eq jid (own_jid jids cli)) (λ e. no_move)
        (λ e.
          by_test (LiveMoves b) (has jid b.contacts) (λ f. no_move) (λ f. send_contact-Moves jid b))

  pub contact_changed-Moves :
      (j alt : J) (b : Live) → LiveMoves b (contact_changed c jids cli d j alt b)
  unfolding contact_changed
  contact_changed-Moves j alt b =
      by_test (LiveMoves b)
        (is_given (chat_at (user_jid jids cli j alt) b.reported)
          || has (user_jid jids cli j alt) b.contacts)
        (λ e. send_contact-Moves _ b) (λ e. no_move)

  group_known-Moves :
      (jid : String) (name : Option String) (b : Live)
      → LiveMoves b (group_known c jids cli d jid name b)
  unfolding say
  group_known-Moves jid (some name) b =
      then_move (one_move (silent {t = record b { groups_sent = jid ∷ b.groups_sent }} refl refl))
        (says _ refl)
  group_known-Moves jid none b =
      by_test (LiveMoves b) b.groups_loaded (λ e. one_move (silent refl refl)) (λ e. no_move)

  pub ensure_group-Moves : (jid : String) (b : Live) → LiveMoves b (ensure_group c jids cli d jid b)
  unfolding ensure_group
  ensure_group-Moves jid b =
      by_test (LiveMoves b) (has jid b.groups_sent) (λ e. no_move) (λ e. group_known-Moves jid _ b)

  pub ensure_chat-Moves :
      (jid : String) (is_group : Bool) (b : Live)
      → LiveMoves b (ensure_chat c jids cli d jid is_group b)
  unfolding ensure_chat
  ensure_chat-Moves jid is_group b = LiveMoves-trans (first_seen-Moves jid is_group b) (
      by_test (LiveMoves _) is_group (λ e. ensure_group-Moves jid _)
        (λ e. ensure_contact-Moves jid _))

  -- chatJID and the sweep.
  with_pn-Moves : (j : J) (pn : Option J) (b : Live) → LiveMoves b (with_pn c jids cli d j pn b).1
  with_pn-Moves j none b = no_move
  with_pn-Moves j (some pn) b = alias-Moves d _ _ b

  pub chat_jid-Moves : (j alt : J) (b : Live) → LiveMoves b (chat_jid c jids cli d j alt b).1
  unfolding chat_jid
  chat_jid-Moves j alt b =
      by_test P (not (reportable_chat jids cli (jids.to_non_ad j))) (λ e. no_move)
        (λ e.
          by_test P (not (is_hidden (jids.server (jids.to_non_ad j)))) (λ f. no_move)
            (λ f. with_pn-Moves (jids.to_non_ad j) _ b))
    where
      P : Option String × Live → Type 0
      P r = LiveMoves b r.1

  swept-Moves : (l : String) (j : Option J) (b : Live) → LiveMoves b (swept c jids cli d l j b)
  swept-Moves l none b = no_move
  swept-Moves l (some lid) b = found (cli.pn_for_lid lid)
    where
      found : (p : Option J) → LiveMoves b (swept_as c jids cli d l p b)
      found none = no_move
      found (some pn) = alias-Moves d l (jids.show pn) b

  pub sweep_lids-Moves : (js : List String) (b : Live) → LiveMoves b (sweep_lids c jids cli d js b)
  unfolding sweep_lids
  sweep_lids-Moves [] b = no_move
  sweep_lids-Moves (l ∷ js) b =
      LiveMoves-trans (swept-Moves l (jids.parse l) b) (sweep_lids-Moves js _)
