-- ===== src/Wa/Send.antt =====
-- internal/wa/commands.go: ready, beginSend, deliver, contextInfo, sendText and setPin.
-- The bridge's fields that they use are the record Bridge; what a run cannot know of (the state of
-- the connection, the answer of WhatsApp, whether a disk write fails, the clock) is the record World.
-- types.ParseJID is an argument. An event that is written is added to `events`, newest first, with
-- whether the send slot was taken at that moment; the time in a send_result and the log are left out.
-- A closed store's error is a store error to the callers. Times are nanoseconds in the backstops and
-- milliseconds in the store.
pub mod Slot
use Prim.Native.String.{String, ◌++◌}
use text.Mathlib.Text.{◌==◌ as str_eq}
use voolo_whatsapp_bridge.Common.{
  ℕ, ◌/◌, Bool, true, false, not, ◌||◌, List, [], ◌∷◌, Option, none, some, if◌then◌else◌,
}
use voolo_whatsapp_bridge.Protocol.Events.{
  ErrorCode, ErrorEvent, new_error, not_initialized, not_paired, not_connected, busy, unknown_chat,
  store_io, duplicate_outbox_id, rate_limited, rate_limited_local, send_failed, internal,
}
use voolo_whatsapp_bridge.Store.Tables.{Store, Result, ok, err_closed, io_error}
use voolo_whatsapp_bridge.Store.Outbox.{
  reserve_outbox, outbox_known, mark_dispatched, set_outbox_message,
}
use voolo_whatsapp_bridge.Wa.Lru.{Lru, put, get}
use voolo_whatsapp_bridge.Wa.Backstop.{backstop_allows, record_send, pin_allowed}

-- The events that these commands write.
pub data Event : Type 0 where
  failed : ErrorEvent → Event
  rate_signal : Event
  send_result : String → String → String → Event  -- reply, outbox id, message id
  done : String → Event

-- protocol.Quote, with its texts as the caches have them.
pub record Reply : Type 0 where
  pub quoted_message_id : String
  pub quoted_sender_jid : String
  pub quoted_text : String
  pub forwarded : Bool

-- waE2E.ContextInfo, as contextInfo fills it.
pub data ContextInfo : Type 0 where
  forward : ContextInfo
  quotes : String → Option String → Option String → ContextInfo  -- id, author, copy of the text

-- A message as it is passed to SendMessage.
pub record Handed : Type 0 where
  pub outbox_id : String
  pub text : String
  pub context : Option ContextInfo

pub record Bridge : Type 0 where
  pub store : Store
  pub sending : Bool
  pub sends : List ℕ
  pub pins : List ℕ
  pub senders : Lru
  pub raw_senders : Lru
  pub handed_over : List Handed  -- the messages passed to SendMessage, newest first
  pub events : List (Event × Bool)

-- What one command finds outside of the bridge.
pub record World : Type 0 where
  pub opened : Bool  -- b.current() is not nil
  pub paired : Bool
  pub connected : Bool
  pub chat_known : Bool  -- types.ParseJID and knownChat
  pub known_fails : Bool
  pub insert_fails : Bool
  pub delete_fails : Bool
  pub mark_fails : Bool
  pub set_fails : Bool
  pub check_at : ℕ
  pub send_at : ℕ
  pub to_jid : String  -- to.String()
  pub own_jid : String
  pub answer : Option String  -- the message id, or none with SendErrorCode of the error
  pub error_code : ErrorCode

-- b.emit and b.fail.
abbrev pub emit : Event → Bridge → Bridge
emit e b = record b { events = (e, b.sending) ∷ b.events }

abbrev pub fail : String → ErrorCode → Bridge → Bridge
fail id code b = emit (failed (new_error id code)) b

-- The tests of ready: the code of its refusal, if it refuses.
abbrev pub ready : World → Option ErrorCode
ready w =
    if not w.opened
    then some not_initialized
    else (if not w.paired
        then some not_paired
        else (if not w.connected then some not_connected else none))

-- release: it frees the slot.
abbrev pub free : Bridge → Bridge
free b = record b { sending = false }

-- refuse: the slot is freed before the error is written.
abbrev pub refuse : String → ErrorCode → Bridge → Bool × Bridge
refuse id code b = (false, fail id code (free b))

-- beginSend from ReserveOutbox on.
abbrev pub reserved : String → Result Bool × Store → Bridge → Bool × Bridge
reserved id (ok true, s') b = refuse id duplicate_outbox_id (record b { store = s' })
reserved id (ok false, s') b = (true, record b { store = s' })
reserved id (_, s') b = refuse id store_io (record b { store = s' })

-- beginSend from the backstop on.
abbrev pub checked : World → String → String → Bool × List ℕ → Bridge → Bool × Bridge
checked w id outbox_id (false, sends') b =
    refuse id rate_limited_local (record b { sends = sends' })
checked w id outbox_id (true, sends') b =
    reserved id
      (reserve_outbox w.insert_fails w.delete_fails outbox_id (w.check_at / 1000000) b.store)
      (record b { sends = sends' })

-- beginSend from OutboxKnown on.
abbrev pub looked_up : World → String → String → Result Bool → Bridge → Bool × Bridge
looked_up w id outbox_id (ok true) b = refuse id duplicate_outbox_id b
looked_up w id outbox_id (ok false) b =
    checked w id outbox_id (backstop_allows b.sends w.check_at) b
looked_up w id outbox_id _ b = refuse id store_io b

-- beginSend with the slot taken.
abbrev pub with_slot : World → String → String → Bridge → Bool × Bridge
with_slot w id outbox_id b =
    if not w.chat_known
    then refuse id unknown_chat b
    else looked_up w id outbox_id (outbox_known w.known_fails outbox_id b.store).0 b

abbrev pub after_ready : World → String → String → Option ErrorCode → Bridge → Bool × Bridge
after_ready w id outbox_id (some code) b = (false, fail id code b)
after_ready w id outbox_id none b =
    if b.sending
    then (false, fail id busy b)
    else with_slot w id outbox_id (record b { sending = true })

-- beginSend: whether the send may go on.
unfoldable pub begin_send : World → String → String → Bridge → Bool × Bridge
begin_send w id outbox_id = after_ready w id outbox_id (ready w)

-- The error of a failed SendMessage.
abbrev pub is_rate_limited : ErrorCode → Bool
is_rate_limited rate_limited = true
is_rate_limited code = false

abbrev pub send_error : String → ErrorCode → Bridge → Bridge
send_error id code b = fail id code (if is_rate_limited code then emit rate_signal b else b)

-- chat + "|" + message id.
abbrev pub sender_key : String → String → String
sender_key chat message = chat ++ ("|" ++ message)

-- deliver after SendMessage answered and the slot was freed.
abbrev pub answered : World → String → String → Option String → Bridge → Bridge
answered w id outbox_id none b = send_error id w.error_code b
answered w id outbox_id (some message) b = emit (send_result id outbox_id message) (record b {
  store = (set_outbox_message w.set_fails outbox_id message b.store).1;
  senders = put (sender_key w.to_jid message) w.own_jid b.senders;
})

-- deliver.
unfoldable pub deliver : World → String → Handed → Bridge → Bridge
deliver w id msg b = answered w id msg.outbox_id w.answer (record b {
  sends = record_send b.sends w.send_at;
  store = (mark_dispatched w.mark_fails msg.outbox_id (w.send_at / 1000000) b.store).1;
  handed_over = msg ∷ b.handed_over;
  sending = false;
})

abbrev pub if_given : String → Option String
if_given t = if str_eq t "" then none else some t

-- The author in contextInfo: of the cache of raw senders, of the client, or of the cache of senders.
abbrev pub author : Reply → String → Option String × Lru → Bridge → Option String × Bridge
author q key (some p, raw') b = (some p, record b { raw_senders = raw' })
author q key (none, raw') b =
    if str_eq q.quoted_sender_jid ""
    then ((get key b.senders).0, record b { raw_senders = raw'; senders = (get key b.senders).1 })
    else (some q.quoted_sender_jid, record b { raw_senders = raw' })

-- contextInfo.
unfoldable pub context_info : String → Reply → Bridge → Option ContextInfo × Bridge
context_info chat q b =
    if q.forwarded
    then (some forward, b)
    else (if str_eq q.quoted_message_id ""
        then (none, b)
        else (let key = sender_key chat q.quoted_message_id in
            let (participant, b') = author q key (get key b.raw_senders) b in
            (some (quotes q.quoted_message_id participant (if_given q.quoted_text)), b')))

-- sendText with the slot, and its deferred release.
abbrev pub go_on : World → String → String → String → String → Reply → Bool × Bridge → Bridge
go_on w id chat outbox_id text q (false, b) = b
go_on w id chat outbox_id text q (true, b) =
    let (context, b') = context_info chat q b in
    free (deliver w id (record { outbox_id = outbox_id; text = text; context = context }) b')

-- sendText.
unfoldable pub send_text : World → String → String → String → String → Reply → Bridge → Bridge
unfolding begin_send deliver context_info
send_text w id chat outbox_id text q b =
    go_on w id chat outbox_id text q (begin_send w id outbox_id b)

-- setPin from the answer of pinAllowed on.
abbrev pub pin_code : ErrorCode → ErrorCode
pin_code send_failed = internal
pin_code code = code

abbrev pub pinned : World → String → Bool → Bridge → Bridge
pinned w id false b = fail id rate_limited_local b
pinned w id true b = elim w.answer [
  | none ↦ fail id (pin_code w.error_code) b
  | some m ↦ emit (done id) b
]

abbrev pub pin_ready : World → String → Option ErrorCode → Bridge → Bridge
pin_ready w id (some code) b = fail id code b
pin_ready w id none b =
    if not w.chat_known
    then fail id unknown_chat b
    else pinned w id (pin_allowed b.pins w.check_at).0
        (record b { pins = (pin_allowed b.pins w.check_at).1 })

-- setPin.
unfoldable pub set_pin : World → String → Bridge → Bridge
set_pin w id = pin_ready w id (ready w)
