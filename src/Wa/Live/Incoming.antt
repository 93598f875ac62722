-- ===== src/Wa/Live/Incoming.antt =====
-- internal/wa/events.go, toMessage. What ContentOf makes of a message's body is part of the event;
-- `is_message_id` and `is_user_jid` are those of Protocol.Text on the code points of a string.
use Prim.Native.String.{String}
use text.Mathlib.Text.{◌==◌ as str_eq}
use voolo_whatsapp_bridge.Common.{
  ℕ, zero, suc, Bool, not, ◌&&◌, ◌||◌, List, [], ◌∷◌, Option, none, some, if◌then◌else◌,
}
use voolo_whatsapp_bridge.Protocol.Text.{is_message_id, is_user_jid, is_group_jid}
use voolo_whatsapp_bridge.Protocol.Events.{Message, Quoted, MediaInfo, MentionLid}
use voolo_whatsapp_bridge.Store.Tables.{MediaDesc}
use voolo_whatsapp_bridge.Wa.Lru.{Lru, put}
use voolo_whatsapp_bridge.Wa.Send.{sender_key}
use voolo_whatsapp_bridge.Wa.Live.{Spelling, truncate, max_name_chars, Live}
use voolo_whatsapp_bridge.Wa.Live.Jid.{Jids, Client, is_default, is_hidden, own_jid, user_jid}

-- MediaKeys and Content.
pub record MediaKeys : Type 0 where
  pub direct_path : String
  pub media_key : List ℕ
  pub file_sha256 : List ℕ
  pub file_enc_sha256 : List ℕ

pub record Content : Type 0 where
  pub kind : String
  pub text : String
  pub media : Option MediaInfo
  pub keys : Option MediaKeys
  pub quoted_id : String
  pub quoted_by : String
  pub mentions : List String
  pub forwarded : Bool

-- The kinds of a ProtocolMessage that are reported, and their part of it.
pub data Change : Type 0 where
  revoke other_change : Change
  edit : Option Content → ℕ → Change  -- ContentOf the edited message, TimestampMS

-- events.Message, as far as it is read; `history` says that it notifies of a history sync.
pub record Incoming (J : Type 0) : Type 0 where
  pub chat : J
  pub sender : J
  pub sender_alt : J
  pub recipient_alt : J
  pub from_me : Bool
  pub is_group : Bool
  pub id : String
  pub ts : ℕ
  pub push_name : String
  pub edited : Bool
  pub content : Option Content
  pub history : Bool
  pub change : Option (String × Change)  -- the target
  pub reaction : Option (String × ℕ × String)  -- target, SenderTimestampMS, text

-- Fetchable.
abbrev pub fetchable : String → Bool
fetchable kind =
    str_eq kind "image"
    || (str_eq kind "voice"
        || (str_eq kind "video"
            || (str_eq kind "sticker" || (str_eq kind "document" || str_eq kind "audio"))))

abbrev pub max_mentions : ℕ
max_mentions = 64

unfoldable pub id_ok : Spelling → String → Bool
id_ok c s = is_message_id (c.points s)

unfoldable pub user_ok : Spelling → String → Bool
user_ok c s = is_user_jid (c.points s)

module _ (c : Spelling) {J : Type 0} (jids : Jids J) (cli : Client J) where
  -- The sender of a message in the chat `chat`.
  abbrev pub named_sender : Incoming J → String
  named_sender e = if e.from_me then own_jid jids cli else user_jid jids cli e.sender e.sender_alt

  abbrev pub sender_of : Incoming J → String → String
  sender_of e chat =
      if str_eq (named_sender e) "" && not (is_group_jid (c.points chat))
      then chat
      else named_sender e

  -- m.Quoted.
  abbrev pub quoted_sender : Option J → String
  quoted_sender none = ""
  quoted_sender (some j) = let u = user_jid jids cli j jids.empty in if user_ok c u then u else ""

  abbrev pub quoted_of : Content → Option Quoted
  quoted_of k =
      if str_eq k.quoted_id ""
      then none
      else some (record {
        id = k.quoted_id;
        sender_jid = if str_eq k.quoted_by "" then "" else quoted_sender (jids.parse k.quoted_by);
      })

  -- The loop over the mentions: who is mentioned, and the pairs of a linked id and its JID.
  abbrev pub lid_pair : J → String → List MentionLid → List MentionLid
  lid_pair mj u rest =
      let lid = jids.to_non_ad mj in
      if is_hidden (jids.server lid) && not (str_eq (jids.show lid) u)
      then record { lid = jids.show lid; jid = u } ∷ rest
      else rest

  abbrev pub mention_of : Option J → Option (J × String)
  mention_of none = none
  mention_of (some mj) =
      let u = user_jid jids cli mj jids.empty in if user_ok c u then some (mj, u) else none

  abbrev pub with_mention :
      Option (J × String)
      → List String × List MentionLid
      → List String × List MentionLid
      → List String × List MentionLid
  with_mention none skipped (us, ls) = skipped
  with_mention (some (mj, u)) skipped (us, ls) = (u ∷ us, lid_pair mj u ls)

  unfoldable pub mentions_of : ℕ → List String → List String × List MentionLid
  unfolding user_jid user_ok
  mentions_of n [] = ([], [])
  mentions_of zero (raw ∷ raws) = ([], [])
  mentions_of (suc n) (raw ∷ raws) =
      let skipped = mentions_of (suc n) raws in
      let rest = mentions_of n raws in with_mention (mention_of (jids.parse raw)) skipped rest

  -- desc.
  abbrev pub desc_with :
      String → String → String → ℕ → Option MediaKeys → Option MediaInfo → Option MediaDesc
  desc_with kind chat id ts (some keys) (some media) =
      if fetchable kind
      then some (record {
        chat_jid = chat;
        message_id = id;
        kind = kind;
        mime = media.mime;
        size_bytes = media.size_bytes;
        duration_s = media.duration_s;
        direct_path = keys.direct_path;
        media_key = keys.media_key;
        file_sha256 = keys.file_sha256;
        file_enc_sha256 = keys.file_enc_sha256;
        msg_ts = ts;
      })
      else none
  desc_with kind chat id ts keys media = none

  abbrev pub desc_of : Content → String → String → ℕ → Option MediaDesc
  desc_of k chat id ts = desc_with k.kind chat id ts k.keys k.media

  abbrev pub message_of : Incoming J → String → Content → Message
  message_of e chat k =
      let (mentions, lids) = mentions_of max_mentions k.mentions in
      record {
        chat_jid = chat;
        id = e.id;
        sender_jid = sender_of e chat;
        from_me = e.from_me;
        ts = e.ts;
        kind = k.kind;
        text = k.text;
        push_name = if e.from_me then "" else truncate c e.push_name max_name_chars;
        quoted = quoted_of k;
        mentions = mentions;
        mention_lids = lids;
        forwarded = k.forwarded;
        edited = e.edited;
        media = k.media;
      }

  -- The two caches of senders.
  abbrev pub raw_put : J → String → Lru → Lru
  raw_put j key l =
      if is_default (jids.server j) || is_hidden (jids.server j) then put key (jids.show j) l else l

  abbrev pub remembered : Incoming J → String → Live → Live
  remembered e chat b =
      let key = sender_key chat e.id in
      record b {
        senders = put key (sender_of e chat) b.senders;
        raw_senders = raw_put (jids.to_non_ad e.sender) key b.raw_senders;
      }

  abbrev pub with_content :
      Incoming J → String → Option Content → Live → Option (Message × Option MediaDesc) × Live
  with_content e chat none b = (none, b)
  with_content e chat (some k) b =
      if id_ok c e.id && user_ok c (sender_of e chat)
      then (some (message_of e chat k, desc_of k chat e.id e.ts), remembered e chat b)
      else (none, b)

  -- toMessage: none when there is nothing to report.
  unfoldable pub to_message :
      Incoming J → String → Live → Option (Message × Option MediaDesc) × Live
  unfolding mentions_of truncate user_jid id_ok user_ok
  to_message e chat b = with_content e chat e.content b
