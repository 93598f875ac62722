-- ===== src/Wa/Live/Chats.antt =====
-- internal/wa/events.go: the chats that were reported, their aliases and their names.
use Prim.Native.String.{String, len}
use text.Mathlib.Text.{◌==◌ as str_eq}
use voolo_whatsapp_bridge.Common.{
  ltb, Bool, true, false, not, ◌&&◌, ◌||◌, List, [], ◌∷◌, length, ◌==◌, Option, none, some,
  if◌then◌else◌,
}
use voolo_whatsapp_bridge.Protocol.Events.{Chat}
use voolo_whatsapp_bridge.Store.Tables.{ChatRow}
use voolo_whatsapp_bridge.Store.Chats.{chat_at, is_lid, add_chats, resolve_lid_chat}
use voolo_whatsapp_bridge.Wa.Live.{
  Spelling, truncate, max_name_chars, ContactInfo, Contact, chat_line, contact_line, alias_line,
  group_line, Live, Disk, say, has, first_non_empty,
}
use voolo_whatsapp_bridge.Wa.Live.Jid.{
  Jids, Client, is_default, is_hidden, reportable_chat, is_pn, own_jid, user_jid,
}

-- alias from the lookup on.
abbrev pub is_pending : Option Bool → Bool
is_pending (some true) = true
is_pending o = false

abbrev pub aliased : Disk → String → String → Live → Live
aliased d lid pn b = say (alias_line pn lid) (record b {
  reported = (pn, false) ∷ (lid, false) ∷ b.reported;
  store = (resolve_lid_chat d.resolve_fails lid pn b.store).1;
})

-- alias.
unfoldable pub alias : Disk → String → String → Live → Live
alias d lid pn b = if is_pending (chat_at lid b.reported) then aliased d lid pn b else b

-- The loop of markReported: the new chats, and the map with them.
abbrev pub marked :
    String
    → Option Bool
    → List String × List ChatRow
    → List String × List ChatRow
    → List String × List ChatRow
marked j none (fresh, rows) known = (j ∷ fresh, rows)
marked j (some p) new known = known

unfoldable pub mark_all : List String → List ChatRow → List String × List ChatRow
mark_all [] rows = ([], rows)
mark_all (j ∷ js) rows =
    let new = mark_all js ((j, ltb 4 (len j) && is_lid j) ∷ rows) in
    let known = mark_all js rows in marked j (chat_at j rows) new known

abbrev pub recorded : Disk → List String × List ChatRow → Live → List String × Live
recorded d (fresh, rows) b = (
  fresh,
  record b {
    reported = rows;
    store =
        if ltb 0 (length fresh)
        then (add_chats d.begin_fails d.fail_at d.commit_fails fresh b.store).1
        else b.store;
  },
)

-- markReported.
unfoldable pub mark_reported : Disk → List String → Live → List String × Live
unfolding mark_all
mark_reported d js b = recorded d (mark_all js b.reported) b

-- The value of a key, for groupCache.
unfoldable pub name_of : String → List (String × String) → Option String
name_of j [] = none
name_of j ((k, v) ∷ rest) = let later = name_of j rest in if str_eq k j then some v else later

-- knownChat.
abbrev pub is_given {ℓ} : {A : Type ℓ} → Option A → Bool
is_given none = false
is_given (some a) = true

unfoldable pub known_chat : String → Live → Bool
unfolding name_of
known_chat jid b = is_given (chat_at jid b.reported) || is_given (name_of jid b.group_names)

module _ (c : Spelling) {J : Type 0} (jids : Jids J) (cli : Client J) (d : Disk) where
  -- chatJID: none for a chat that is never reported.
  abbrev pub with_pn : J → Option J → Live → Option String × Live
  with_pn j none b = (some (jids.show j), b)
  with_pn j (some pn) b = (some (jids.show pn), alias d (jids.show j) (jids.show pn) b)

  unfoldable pub chat_jid : J → J → Live → Option String × Live
  unfolding alias
  chat_jid j alt b =
      let j' = jids.to_non_ad j in
      if not (reportable_chat jids cli j')
      then (none, b)
      else (if not (is_hidden (jids.server j'))
          then (some (jids.show j'), b)
          else with_pn j'
              (if is_pn jids cli alt then some (jids.to_non_ad alt) else cli.pn_for_lid j') b)

  -- sweepLIDs: `js` are the keys of the chats that wait for their alias, in the map's order.
  abbrev pub swept_as : String → Option J → Live → Live
  swept_as l none b = b
  swept_as l (some pn) b = alias d l (jids.show pn) b

  abbrev pub swept : String → Option J → Live → Live
  swept l none b = b
  swept l (some lid) b = swept_as l (cli.pn_for_lid lid) b

  unfoldable pub sweep_lids : List String → Live → Live
  unfolding alias
  sweep_lids [] b = b
  sweep_lids (l ∷ js) b = sweep_lids js (swept l (jids.parse l) b)

  -- sendContact.
  abbrev pub contact_of : String → J → ContactInfo → Contact
  contact_of jid j ci = record {
    jid = jid;
    name = truncate c (first_non_empty (ci.full_name ∷ ci.first_name ∷ [])) max_name_chars;
    push_name = truncate c ci.push_name max_name_chars;
    business_name = truncate c ci.business_name max_name_chars;
    lid =
        if is_default (jids.server j)
        then elim (cli.lid_for_pn j) [
          | none ↦ ""
          | some lid ↦
              if is_hidden (jids.server lid) && jids.has_user lid then jids.show lid else ""
        ]
        else "";
  }

  abbrev pub nameless : Contact → Bool
  nameless k = str_eq k.name "" && (str_eq k.push_name "" && str_eq k.business_name "")

  abbrev pub send_named : Contact → Live → Live
  send_named k b =
      if nameless k then b else say (contact_line k) (record b { contacts = k.jid ∷ b.contacts })

  abbrev pub send_parsed : String → Option J → Live → Live
  send_parsed jid none b = b
  send_parsed jid (some j) b = send_named (contact_of jid j (cli.contact j)) b

  unfoldable pub send_contact : String → Live → Live
  unfolding truncate first_non_empty say
  send_contact jid b = send_parsed jid (jids.parse jid) b

  -- ensureContact.
  unfoldable pub ensure_contact : String → Live → Live
  unfolding send_contact has
  ensure_contact jid b =
      if str_eq jid "" || str_eq jid (own_jid jids cli)
      then b
      else (if has jid b.contacts then b else send_contact jid b)

  -- contactChanged.
  unfoldable pub contact_changed : J → J → Live → Live
  unfolding send_contact has user_jid
  contact_changed j alt b =
      let jid = user_jid jids cli j alt in
      if is_given (chat_at jid b.reported) || has jid b.contacts then send_contact jid b else b

  -- ensureGroup up to its goroutine.
  abbrev pub group_known : String → Option String → Live → Live
  group_known jid (some name) b =
      say (group_line jid (truncate c name max_name_chars))
        (record b { groups_sent = jid ∷ b.groups_sent })
  group_known jid none b =
      if b.groups_loaded
      then record b { groups_sent = jid ∷ b.groups_sent; group_fetches = jid ∷ b.group_fetches }
      else b

  unfoldable pub ensure_group : String → Live → Live
  unfolding name_of has say
  ensure_group jid b =
      if has jid b.groups_sent then b else group_known jid (name_of jid b.group_names) b

  -- The chat of ensureChat.
  abbrev pub chat_name : String → Bool → Live → String
  chat_name jid true b = elim (name_of jid b.group_names) [
    | none ↦ ""
    | some name ↦ truncate c name max_name_chars
  ]
  chat_name jid false b = elim (jids.parse jid) [
    | none ↦ named (cli.contact jids.empty)
    | some j ↦ named (cli.contact j)
  ]
    where
      named : ContactInfo → String
      named ci =
          if ci.found
          then truncate c
              (first_non_empty
                (ci.full_name ∷ ci.first_name ∷ ci.push_name ∷ ci.business_name ∷ []))
              max_name_chars
          else ""

  abbrev pub new_chat : String → Bool → Live → Chat
  new_chat jid is_group b = record {
    jid = jid;
    kind = if is_group then "group" else "dm";
    name = chat_name jid is_group b;
    unread_count = none;
    pinned = none;
    muted_until = 0;
    archived = none;
    last_message_at = 0;
  }

  -- ensureChat.
  abbrev pub first_seen : String → Bool → List String × Live → Live
  first_seen jid is_group (fresh, b) =
      if length fresh == 1 then say (chat_line (new_chat jid is_group b)) b else b

  unfoldable pub ensure_chat : String → Bool → Live → Live
  unfolding mark_reported ensure_contact ensure_group say
  ensure_chat jid is_group b =
      let b' = first_seen jid is_group (mark_reported d (jid ∷ []) b) in
      if is_group then ensure_group jid b' else ensure_contact jid b'
