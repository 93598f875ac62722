-- ===== src/Wa/Live/Groups.antt =====
-- internal/wa/events.go: a group that the account has joined.
use Prim.Native.String.{String}
use voolo_whatsapp_bridge.Common.{true, ◌∷◌}
use voolo_whatsapp_bridge.Wa.Live.{Spelling, Live, Disk}
use voolo_whatsapp_bridge.Wa.Live.Jid.{Jids, Client}
use voolo_whatsapp_bridge.Wa.Live.Chats.{ensure_chat}

module _ (c : Spelling) {J : Type 0} (jids : Jids J) (cli : Client J) (d : Disk) where
  -- joinedGroup, with the JID and the name of the group.
  unfoldable pub joined_group : J → String → Live → Live
  unfolding ensure_chat
  joined_group j name b =
      let jid = jids.show (jids.to_non_ad j) in
      ensure_chat c jids cli d jid true (record b { group_names = (jid, name) ∷ b.group_names })
