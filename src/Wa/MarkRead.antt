-- ===== src/Wa/MarkRead.antt =====
-- internal/wa/commands.go, markRead. Whether types.ParseJID takes the chat's JID is an argument; the
-- rest of what it finds outside of the bridge is the record World. The answer says whether the receipts
-- were passed to WhatsApp.
pub mod Senders
use Prim.Native.String.{String}
use text.Mathlib.Text.{◌==◌ as str_eq}
use voolo_whatsapp_bridge.Common.{
  Bool, true, false, not, List, [], ◌∷◌, Option, none, some, if◌then◌else◌,
}
use voolo_whatsapp_bridge.Protocol.Events.{
  ErrorCode, bad_request, unknown_chat, send_failed, rate_limited, internal,
}
use voolo_whatsapp_bridge.Wa.Lru.{Lru, get}
use voolo_whatsapp_bridge.Wa.Send.{done, Bridge, World, emit, fail, ready, sender_key}

-- The receipts of one mark_read.
pub record Receipts : Type 0 where
  pub chat_jid : String
  pub message_ids : List String
  pub sender_jid : String

-- known && by != c.SenderJID
abbrev pub other_sender : String → Option String → Bool
other_sender sender none = false
other_sender sender (some by) = not (str_eq by sender)

-- The loop over the message ids: whether none has another sender, and the cache after it.
unfoldable pub check_senders : String → String → List String → Lru → Bool × Lru
check_senders chat sender [] l = (true, l)
check_senders chat sender (m ∷ ms) l =
    let found = get (sender_key chat m) l in
    let rest = check_senders chat sender ms found.1 in
    if other_sender sender found.0 then (false, found.1) else rest

abbrev pub receipt_code : ErrorCode → ErrorCode
receipt_code send_failed = internal
receipt_code rate_limited = internal
receipt_code code = code

-- markRead from the call of MarkRead on.
abbrev pub passed_on : World → String → Bridge → Bool × Bridge
passed_on w id b = (
  true,
  elim w.answer [ none ↦ fail id (receipt_code w.error_code) b | some m ↦ emit (done id) b ],
)

abbrev pub with_senders : World → String → Bool × Lru → Bridge → Bool × Bridge
with_senders w id (false, l) b = (false, fail id bad_request (record b { senders = l }))
with_senders w id (true, l) b = passed_on w id (record b { senders = l })

abbrev pub read_ready : World → Bool → String → Receipts → Option ErrorCode → Bridge → Bool × Bridge
read_ready w parses id c (some code) b = (false, fail id code b)
read_ready w parses id c none b =
    if not parses
    then (false, fail id bad_request b)
    else (if not w.chat_known
        then (false, fail id unknown_chat b)
        else (if str_eq c.sender_jid ""
            then passed_on w id b
            else with_senders w id (check_senders c.chat_jid c.sender_jid c.message_ids b.senders)
                b))

-- markRead.
unfoldable pub mark_read : World → Bool → String → Receipts → Bridge → Bool × Bridge
unfolding check_senders
mark_read w parses id c b = read_ready w parses id c (ready w) b
