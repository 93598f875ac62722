-- ===== src/Wa/Lifecycle/Handle.antt =====
-- internal/wa/bridge.go, Handle, and what an event of WhatsApp does to the engine in the onEvent of
-- internal/wa/events.go: of a connection the sweep of Wa.Live.Chats and the loading of the groups are
-- not here, nor is the flag of the offline sync. The arguments of the section are those of Protocol.Fields for DecodeCommand.
use Prim.Native.String.{String}
use text.Mathlib.Text.{◌==◌ as str_eq}
use voolo_whatsapp_bridge.Common.{
  ℕ, ◌/◌, ◌==◌, Bool, true, false, not, ◌&&◌, ◌||◌, List, Option, none, some, if◌then◌else◌,
}
use voolo_whatsapp_bridge.Protocol.Text.{Text}
use voolo_whatsapp_bridge.Protocol.Events.{
  bad_request, unknown_command, not_initialized, connected, reconnecting, stopped, LogoutReason,
  pair_timeout, pair_rejected, pair_error, phone_invalid,
}
use voolo_whatsapp_bridge.Protocol.Commands.{
  Command, init, pair_phone, ack, no_payload, JsonInt, nonneg, negative,
}
use voolo_whatsapp_bridge.Protocol.Validate.{Checked, accepted, refused, bad}
use voolo_whatsapp_bridge.Protocol.Fields.{is_command, decode_command}
use voolo_whatsapp_bridge.History.Window.{Window}
use voolo_whatsapp_bridge.Wa.Lifecycle.{
  Engine, Surroundings, notify, pong, other, refuse_with, do_init, go_safe, set_state, command,
  logging_out, signal, Signal, temp_banned, stream_replaced_signal, keepalive_timeout_signal,
  rate_limited_signal, connect_failure_signal, Session,
}
use voolo_whatsapp_bridge.Wa.Lifecycle.Pair.{
  start_pairing, pair_end, pair_success, client_is_outdated,
}

-- Handle up to its decoding: the commands that need no init.
abbrev pub needs_no_init : String → Bool
needs_no_init typ = str_eq typ "ping" || str_eq typ "shutdown" || str_eq typ "init"

-- window.Ack: validate asks for a seq of 1 at least.
abbrev pub acked : JsonInt → Window → Window
acked (nonneg seq) w = (voolo_whatsapp_bridge.History.Window.ack seq w).1
acked negative w = w

-- The cases of Empty: the engine, and whether it is a shutdown.
abbrev pub without_payload : Bool → String → String → Engine → Bool × Engine
without_payload linked typ id b =
    if str_eq typ "ping"
    then (false, notify (pong id) b)
    else (if str_eq typ "shutdown"
        then (true, b)
        else (if str_eq typ "pair_qr"
            then (false, start_pairing linked id "" b)
            else (if str_eq typ "logout" then (false, go_safe (command id) b) else (false, b))))

-- The switch on the payload's type.
abbrev pub dispatch :
    (Text → String) → Surroundings → Bool → String → String → Command → Engine → Bool × Engine
dispatch spell w linked typ id (init c) b = (false, do_init w id c b)
dispatch spell w linked typ id (ack seq) b = (false, record b { window = acked seq b.window })
dispatch spell w linked typ id (pair_phone phone) b =
    (false, start_pairing linked id (spell phone) b)
dispatch spell w linked typ id no_payload b = without_payload linked typ id b
dispatch spell w linked typ id _ b = (false, go_safe (command id) b)

abbrev pub decoded :
    (Text → String)
    → Surroundings
    → Bool
    → String
    → String
    → Checked Command
    → Engine
    → Bool × Engine
decoded spell w linked typ id (accepted c) b = dispatch spell w linked typ id c b
decoded spell w linked typ id (refused bad) b = (false, refuse_with id bad_request b)
decoded spell w linked typ id (refused _) b = (false, refuse_with id phone_invalid b)

-- Handle, with DecodeCommand as an argument: whether the caller is to stop the bridge.
unfoldable pub handle_with :
    (String → Text → Checked Command)
    → (Text → String)
    → Surroundings
    → Bool
    → String
    → String
    → Text
    → Engine
    → Bool × Engine
unfolding do_init start_pairing go_safe
handle_with decode spell w linked id typ payload b =
    if not (is_command typ)
    then (false, refuse_with id unknown_command b)
    else (if not (needs_no_init typ || b.inited)
        then (false, refuse_with id not_initialized b)
        else decoded spell w linked typ id (decode typ payload) b)

-- Handle.
module _ (members : Text → Option (List (String × Text))) (is_null : Text → Bool)
    (valid_utf8 : Text → Bool) (decode : String → Text → Option Command) (is_abs : Text → Bool)
    (clean : Text → Text) (spell : Text → String) where
  unfoldable pub handle : Surroundings → Bool → String → String → Text → Engine → Bool × Engine
  unfolding handle_with
  handle = handle_with (decode_command members is_null valid_utf8 decode is_abs clean) spell

-- The events of WhatsApp that change the engine or are mapped to a signal; `reporting` is any other,
-- of which only lines are written. An expiry is in nanoseconds.
pub data WaEvent : Type 0 where
  pair_successful : String → WaEvent
  pair_error_event qr_without_multidevice : WaEvent
  connected_event disconnected_event : WaEvent
  logged_out_event : LogoutReason → ℕ → WaEvent
  stream_replaced keepalive_timeout : WaEvent
  temporary_ban : ℕ → ℕ → WaEvent
  connect_failure : ℕ → WaEvent
  client_outdated_event : Bool → WaEvent  -- whether RefreshVersion is set
  reporting : ℕ → WaEvent

-- SignalFor.
unfoldable pub signal_for : WaEvent → Option Signal
signal_for (temporary_ban code expire) = some (temp_banned code (expire / 1000000))
signal_for stream_replaced = some stream_replaced_signal
signal_for (connect_failure reason) =
    some (if reason == 429 then rate_limited_signal 429 else connect_failure_signal reason)
signal_for keepalive_timeout = some keepalive_timeout_signal
signal_for _ = none

abbrev pub signalled : Option Signal → Engine → Engine
signalled none b = b
signalled (some s) b = notify (signal s) b

abbrev pub lost : Bool × Engine → Engine
lost (true, b) = b
lost (false, b) = set_state reconnecting b

-- The switch of onEvent.
unfoldable pub on_wa_event : ℕ → WaEvent → Engine → Engine
unfolding pair_success pair_end set_state go_safe client_is_outdated
on_wa_event s (pair_successful jid) b = pair_success s jid b
on_wa_event s pair_error_event b = (pair_end s pair_error b).1
on_wa_event s qr_without_multidevice b = (pair_end s pair_rejected b).1
on_wa_event s connected_event b = set_state connected b
on_wa_event s disconnected_event b = lost (pair_end s pair_timeout b)
on_wa_event s (logged_out_event reason code) b = go_safe (logging_out reason code) b
on_wa_event s stream_replaced b = set_state stopped b
on_wa_event s (temporary_ban code expire) b = set_state stopped b
on_wa_event s (connect_failure reason) b = set_state stopped (pair_end s pair_error b).1
on_wa_event s (client_outdated_event refreshable) b = client_is_outdated refreshable s b
on_wa_event s keepalive_timeout b = b
on_wa_event s (reporting n) b = notify (other n) b

abbrev pub is_live : ℕ → Option Session → Bool
is_live n none = false
is_live n (some s) = s.number == n && not s.cancelled

-- onEvent of the session `s`.
unfoldable pub on_event : ℕ → WaEvent → Engine → Engine
unfolding signal_for on_wa_event
on_event s e b = if is_live s b.session then on_wa_event s e (signalled (signal_for e) b) else b
