-- ===== src/Wa/Live/Jid.antt =====
-- internal/wa/events.go and convert.go: the JIDs that are put on the pipe. The fields of Jids are
-- operations of whatsmeow's types.JID, those of Client answers of its client.
use Prim.Native.String.{String}
use voolo_whatsapp_bridge.Common.{Bool, true, false, not, ◌&&◌, Option, none, some, if◌then◌else◌}
use voolo_whatsapp_bridge.Wa.Live.{ContactInfo}

-- The servers that the bridge tells apart.
pub data Server : Type 0 where
  default_user hidden_user group_server other_server : Server

abbrev pub is_default : Server → Bool
is_default default_user = true
is_default s = false

abbrev pub is_hidden : Server → Bool
is_hidden hidden_user = true
is_hidden s = false

pub record Jids (J : Type 0) : Type 0 where
  pub server : J → Server
  pub has_user : J → Bool  -- User != ""
  pub to_non_ad : J → J
  pub show : J → String
  pub parse : String → Option J
  pub empty : J  -- EmptyJID

pub record Client (J : Type 0) : Type 0 where
  pub account : Option J  -- the account's JID, if it is not empty
  pub pn_for_lid : J → Option J
  pub lid_for_pn : J → Option J
  pub contact : J → ContactInfo

module _ {J : Type 0} (jids : Jids J) (cli : Client J) where
  -- ReportableChat.
  abbrev pub reportable_server : Server → Bool
  reportable_server other_server = false
  reportable_server s = true

  unfoldable pub reportable_chat : J → Bool
  reportable_chat j = reportable_server (jids.server j) && jids.has_user j

  -- ownJID.
  abbrev pub own_jid : String
  own_jid = elim cli.account [ none ↦ "" | some j ↦ jids.show j ]

  -- A phone number that WhatsApp gave with a JID.
  abbrev pub is_pn : J → Bool
  is_pn alt = is_default (jids.server alt) && jids.has_user alt

  -- userJID: the JID in protocol form, or the empty string.
  abbrev pub shown_user : J → String
  shown_user j =
      if not (is_default (jids.server j)) && not (is_hidden (jids.server j))
      then ""
      else jids.show j

  abbrev pub by_client : J → Option J → String
  by_client j (some pn) = jids.show pn
  by_client j none = shown_user j

  unfoldable pub user_jid : J → J → String
  user_jid j alt =
      let j' = jids.to_non_ad j in
      if is_hidden (jids.server j')
      then (if is_pn alt then jids.show (jids.to_non_ad alt) else by_client j' (cli.pn_for_lid j'))
      else shown_user j'
