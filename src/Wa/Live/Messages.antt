-- ===== src/Wa/Live/Messages.antt =====
-- internal/wa/events.go, onMessage and onUndecryptable.
use Prim.Native.String.{String}
use voolo_whatsapp_bridge.Common.{
  ℕ, suc, ltb, Bool, false, not, ◌&&◌, List, [], ◌∷◌, Option, none, some, if◌then◌else◌,
}
use voolo_whatsapp_bridge.Protocol.Events.{Message}
use voolo_whatsapp_bridge.Store.Tables.{MediaDesc}
use voolo_whatsapp_bridge.Store.Media.{put_media}
use voolo_whatsapp_bridge.Wa.Live.{
  Spelling, truncate, MessageUpdate, message_line, message_update_line, reaction_line, Live, Disk,
  say,
}
use voolo_whatsapp_bridge.Wa.Live.Jid.{Jids, Client, user_jid}
use voolo_whatsapp_bridge.Wa.Live.Chats.{chat_jid, ensure_chat, ensure_contact}
use voolo_whatsapp_bridge.Wa.Live.Incoming.{
  Change, revoke, other_change, edit, Incoming, id_ok, user_ok, named_sender, to_message,
}

abbrev pub or_later : ℕ → ℕ → ℕ
or_later ts at = if ltb 0 ts then ts else at

module _ (c : Spelling) {J : Type 0} (jids : Jids J) (cli : Client J) (d : Disk) where
  -- alt in onMessage and in onUndecryptable.
  abbrev pub alt_of : Incoming J → J
  alt_of e =
      if e.is_group then jids.empty else (if e.from_me then e.recipient_alt else e.sender_alt)

  -- The revocation or the edit of a message.
  abbrev pub update_of : String → String → String → String → ℕ → String → MessageUpdate
  update_of chat target kind text at by = record {
    chat_jid = chat;
    message_id = target;
    kind = kind;
    text = text;
    at = at;
    by = by;
  }

  abbrev pub changed : Incoming J → String → String → String → Change → Live → Live
  changed e chat by target revoke b =
      say (message_update_line (update_of chat target "revoke" "" e.ts by)) b
  changed e chat by target (edit none ts) b = b
  changed e chat by target (edit (some k) ts) b =
      say (message_update_line (update_of chat target "edit" k.text (or_later ts e.ts) by)) b
  changed e chat by target other_change b = b

  abbrev pub reacted : Incoming J → String → String → String × ℕ × String → Live → Live
  reacted e chat by (target, ts, text) b =
      if id_ok c target && user_ok c by
      then say
          (reaction_line (record {
            chat_jid = chat;
            message_id = target;
            sender_jid = by;
            emoji = truncate c text 32;
            at = or_later ts e.ts;
          }))
          b
      else b

  -- The media row of a message.
  abbrev pub with_desc : Option MediaDesc → Live → Live
  with_desc none b = b
  with_desc (some desc) b = record b {
    store = (put_media d.begin_fails d.fail_at d.commit_fails (desc ∷ []) b.store).1;
  }

  -- The names of the mentioned.
  unfoldable pub ensure_contacts : List String → Live → Live
  unfolding ensure_contact
  ensure_contacts [] b = b
  ensure_contacts (j ∷ js) b = ensure_contacts js (ensure_contact c jids cli d j b)

  abbrev pub reported_message :
      Incoming J → String → Option (Message × Option MediaDesc) × Live → Live
  reported_message e chat (none, b) = b
  reported_message e chat (some (m, desc), b) =
      let b' = with_desc desc (ensure_chat c jids cli d chat e.is_group b) in
      let b'' = say (message_line m) b' in
      let b''' =
        if e.is_group && not m.from_me then ensure_contact c jids cli d m.sender_jid b'' else b'' in
      ensure_contacts m.mentions b'''

  -- onMessage behind chatJID.
  abbrev pub by_kind :
      Incoming J → String → Option (String × Change) → Option (String × ℕ × String) → Live → Live
  by_kind e chat (some (target, change)) r b =
      if id_ok c target then changed e chat (named_sender c jids cli e) target change b else b
  by_kind e chat none (some r) b = reacted e chat (named_sender c jids cli e) r b
  by_kind e chat none none b = reported_message e chat (to_message c jids cli e chat b)

  abbrev pub in_chat : Incoming J → Option String × Live → Live
  in_chat e (none, b) = b
  in_chat e (some chat, b) = by_kind e chat e.change e.reaction b

  -- onMessage.
  unfoldable pub on_message : Incoming J → Live → Live
  unfolding chat_jid to_message ensure_chat ensure_contact ensure_contacts say truncate id_ok
      user_ok user_jid
  on_message e b =
      if e.history && e.from_me
      then record b { history_queued = suc b.history_queued }
      else in_chat e (chat_jid c jids cli d e.chat (alt_of e) b)

  -- onUndecryptable; `view_once` says that the message is a view-once that is not available.
  abbrev pub undecryptable : Incoming J → String → Message
  undecryptable e chat = record {
    chat_jid = chat;
    id = e.id;
    sender_jid = named_sender c jids cli e;
    from_me = e.from_me;
    ts = e.ts;
    kind = "unsupported";
    text = "";
    push_name = "";
    quoted = none;
    mentions = [];
    mention_lids = [];
    forwarded = false;
    edited = false;
    media = none;
  }

  abbrev pub unreadable_in : Incoming J → Option String × Live → Live
  unreadable_in e (none, b) = b
  unreadable_in e (some chat, b) =
      if id_ok c e.id && user_ok c (named_sender c jids cli e)
      then say (message_line (undecryptable e chat)) (ensure_chat c jids cli d chat e.is_group b)
      else b

  unfoldable pub on_undecryptable : Bool → Incoming J → Live → Live
  unfolding chat_jid ensure_chat say id_ok user_ok user_jid
  on_undecryptable view_once e b =
      if view_once
      then b
      else unreadable_in e
          (chat_jid c jids cli d e.chat (if e.is_group then jids.empty else e.sender_alt) b)
