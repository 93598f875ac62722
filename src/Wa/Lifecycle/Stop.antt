-- ===== src/Wa/Lifecycle/Stop.antt =====
-- internal/wa/bridge.go, Stop, and what run of cmd/voolo-whatsapp-bridge/run.go writes behind it.
use text.Mathlib.Text.{◌==◌ as str_eq}
use Prim.Native.String.{String}
use voolo_whatsapp_bridge.Common.{Bool, true, Option, none, some, if◌then◌else◌}
use voolo_whatsapp_bridge.Protocol.Events.{new_error, store_io, State, stopped}
use voolo_whatsapp_bridge.Protocol.Writer.{quiesce}
use voolo_whatsapp_bridge.Store.Tables.{Result, ok, close, wipe, Removals}
use voolo_whatsapp_bridge.Wa.Lifecycle.{
  Engine, status, problem, done, logged_out_line, Session, LogoutInfo, notify_last, same_state,
  cancel_session,
}

-- changeState with emitFinal, in Stop. No other goroutine's line comes between, and what one does
-- to the state between the unlock and the line, it may as well do behind it.
unfoldable pub set_last_state : State → Engine → Engine
set_last_state s b =
    let b' = record b { state = some s } in
    if same_state b.state s then b' else notify_last (status s) b'

-- Stop up to its unlock, its Quiesce, and its cancel of the session. The session is the one that was
-- read under the lock: doInit, which alone sets it, runs on the goroutine that calls Stop.
unfoldable pub begin_stop : Engine → Engine
begin_stop b = if b.stopping then b else record b { stopping = true; pair = none }

unfoldable pub silence : Engine → Engine
silence b = record b { out = quiesce b.out }

unfoldable pub cancel_running : Engine → Engine
cancel_running b = record b { session = cancel_session b.session }

-- Stop after its wait: the store is deleted after a logout, else closed.
abbrev pub wipe_line : Result (Unit {0}) → Engine → Engine
wipe_line (ok u) b = b
wipe_line _ b = notify_last (problem (new_error "" store_io)) b

abbrev pub end_store : Bool → Removals → Option Session → Option LogoutInfo → Engine → Engine
end_store fails removals none lo b = b
end_store fails removals (some s) none b = record b {
  session = some (record s { store = (close fails s.store).1 });
}
end_store fails removals (some s) (some lo) b =
    let (result, st) = wipe removals s.store in
    notify_last (logged_out_line lo.reason lo.code)
      (wipe_line result (record b { session = some (record s { store = st }) }))

abbrev pub last_ok : Option LogoutInfo → Engine → Engine
last_ok none b = b
last_ok (some lo) b = if str_eq lo.reply_to "" then b else notify_last (done lo.reply_to) b

unfoldable pub end_stop : Bool → Removals → Engine → Engine
unfolding set_last_state notify_last wipe close
end_stop fails removals b =
    let b' = end_store fails removals b.session b.logged_out b in
    last_ok b.logged_out
      (record (if b.inited then set_last_state stopped b' else b') { ended = true })

-- run: the answer to shutdown, behind Stop.
unfoldable pub answer_shutdown : String → Engine → Engine
unfolding notify_last
answer_shutdown id b = notify_last (done id) (record b { replied = true })
