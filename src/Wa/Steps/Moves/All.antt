-- ===== src/Wa/Steps/Moves/All.antt =====
-- Every step of the engine of internal/wa but those of Stop is a sequence of moves.
use Prim.Native.String.{String}
use text.Mathlib.Text.{◌==◌ as str_eq}
use voolo_whatsapp_bridge.Common.{
  ℕ, ◌≡◌, refl, Bool, true, false, not, ◌||◌, List, Option, none, some, arith, by_test,
}
use voolo_whatsapp_bridge.Protocol.Events.{
  State, connected, reconnecting, stopped, pair_timeout, pair_rejected, pair_error,
}
use voolo_whatsapp_bridge.Protocol.Text.{Text}
use voolo_whatsapp_bridge.Protocol.Commands.{
  Command, init, pair_phone, send_text, send_media, mark_read, fetch_media, set_pin, fetch_avatar,
  ack, no_payload,
}
use voolo_whatsapp_bridge.Protocol.Validate.{Checked, accepted, refused, bad, phone_invalid}
use voolo_whatsapp_bridge.Protocol.Fields.{is_command}
use voolo_whatsapp_bridge.Store.Tables.{Removals}
use voolo_whatsapp_bridge.Wa.Lifecycle.{
  Engine, Notice, Surroundings, say_status, pong, signal, other, Signal, problem, status,
  ready_line, done, qr, pair_code, paired, pair_failed, logged_out_line,
}
use voolo_whatsapp_bridge.Wa.Lifecycle.Stop.{
  begin_stop, end_stop, silence, cancel_running, answer_shutdown,
}
use voolo_whatsapp_bridge.Wa.Lifecycle.Pair.{pair_end}
use voolo_whatsapp_bridge.Wa.Lifecycle.Handle.{
  needs_no_init, without_payload, dispatch, decoded, handle_with, WaEvent, pair_successful,
  pair_error_event, qr_without_multidevice, connected_event, disconnected_event, logged_out_event,
  stream_replaced, keepalive_timeout, temporary_ban, connect_failure, client_outdated_event,
  reporting, signal_for, signalled, lost, on_wa_event, is_live, on_event,
}
use voolo_whatsapp_bridge.Wa.Steps.{
  Step, handles, receives, fails_to_connect, aborts, runs_out, refreshes, reports, logs_out, stores,
  tells, stops, silences, cancels, ends, replies, is_report,
}
use voolo_whatsapp_bridge.Wa.Steps.Moves.{
  is_plain, Moves, no_move, Moves-trans, one_move, says, sets, quiet,
}
use voolo_whatsapp_bridge.Wa.Steps.Moves.Operations.{
  go_safe-Moves, connect_failed-Moves, do_init-Moves, logged_out_by-Moves, start_pairing-Moves,
  abort_pair-Moves, pair_end-Moves, out_of_codes-Moves, pair_success-Moves,
  client_is_outdated-Moves, refreshed-Moves,
}

-- Handle.
without_payload-Moves :
    (linked : Bool) (typ id : String) (b : Engine) → Moves b (without_payload linked typ id b).1
without_payload-Moves linked typ id b =
    by_test P (str_eq typ "ping") (λ e. one_move (says (pong id) refl))
      (λ e.
        by_test P (str_eq typ "shutdown") (λ f. no_move)
          (λ f.
            by_test P (str_eq typ "pair_qr") (λ g. start_pairing-Moves linked id "" b)
              (λ g. by_test P (str_eq typ "logout") (λ h. go_safe-Moves _ b) (λ h. no_move))))
  where
    P : Bool × Engine → Type 0
    P r = Moves b r.1

dispatch-Moves :
    (spell : Text → String) (w : Surroundings) (linked : Bool) (typ id : String) (c : Command)
    (b : Engine)
    → Moves b (dispatch spell w linked typ id c b).1
dispatch-Moves spell w linked typ id (init c) b = do_init-Moves w id c b
dispatch-Moves spell w linked typ id (pair_phone p) b = start_pairing-Moves linked id (spell p) b
dispatch-Moves spell w linked typ id (send_text c) b = go_safe-Moves _ b
dispatch-Moves spell w linked typ id (send_media c) b = go_safe-Moves _ b
dispatch-Moves spell w linked typ id (mark_read c) b = go_safe-Moves _ b
dispatch-Moves spell w linked typ id (fetch_media c m) b = go_safe-Moves _ b
dispatch-Moves spell w linked typ id (set_pin c p) b = go_safe-Moves _ b
dispatch-Moves spell w linked typ id (fetch_avatar c k) b = go_safe-Moves _ b
dispatch-Moves spell w linked typ id (ack seq) b = quiet refl (omega arith)
dispatch-Moves spell w linked typ id no_payload b = without_payload-Moves linked typ id b

decoded-Moves :
    (spell : Text → String) (w : Surroundings) (linked : Bool) (typ id : String)
    (c : Checked Command) (b : Engine)
    → Moves b (decoded spell w linked typ id c b).1
decoded-Moves spell w linked typ id (accepted c) b = dispatch-Moves spell w linked typ id c b
decoded-Moves spell w linked typ id (refused bad) b = one_move (says _ refl)
decoded-Moves spell w linked typ id (refused phone_invalid) b = one_move (says _ refl)

handle_with-Moves :
    (decode : String → Text → Checked Command) (spell : Text → String) (w : Surroundings)
    (linked : Bool) (id typ : String) (payload : Text) (b : Engine)
    → Moves b (handle_with decode spell w linked id typ payload b).1
unfolding handle_with
handle_with-Moves decode spell w linked id typ payload b =
    by_test P (not (is_command typ)) (λ e. one_move (says _ refl))
      (λ e.
        by_test P (not (needs_no_init typ || b.inited)) (λ f. one_move (says _ refl))
          (λ f. decoded-Moves spell w linked typ id (decode typ payload) b))
  where
    P : Bool × Engine → Type 0
    P r = Moves b r.1

-- onEvent.
signalled-Moves : (s : Option Signal) (b : Engine) → Moves b (signalled s b)
signalled-Moves none b = no_move
signalled-Moves (some s) b = one_move (says (signal s) refl)

lost-Moves : {a : Engine} (r : Bool × Engine) → Moves a r.1 → Moves a (lost r)
lost-Moves (true, b) m = m
lost-Moves (false, b) m = Moves-trans m (one_move (sets reconnecting))

on_wa_event-Moves : (s : ℕ) (e : WaEvent) (b : Engine) → Moves b (on_wa_event s e b)
unfolding on_wa_event
on_wa_event-Moves s (pair_successful jid) b = pair_success-Moves s jid b
on_wa_event-Moves s pair_error_event b = pair_end-Moves s pair_error b
on_wa_event-Moves s qr_without_multidevice b = pair_end-Moves s pair_rejected b
on_wa_event-Moves s connected_event b = one_move (sets connected)
on_wa_event-Moves s disconnected_event b =
    lost-Moves (pair_end s pair_timeout b) (pair_end-Moves s pair_timeout b)
on_wa_event-Moves s (logged_out_event reason code) b = go_safe-Moves _ b
on_wa_event-Moves s stream_replaced b = one_move (sets stopped)
on_wa_event-Moves s keepalive_timeout b = no_move
on_wa_event-Moves s (temporary_ban code expire) b = one_move (sets stopped)
on_wa_event-Moves s (connect_failure reason) b =
    Moves-trans (pair_end-Moves s pair_error b) (one_move (sets stopped))
on_wa_event-Moves s (client_outdated_event r) b = client_is_outdated-Moves r s b
on_wa_event-Moves s (reporting n) b = one_move (says (other n) refl)

on_event-Moves : (s : ℕ) (e : WaEvent) (b : Engine) → Moves b (on_event s e b)
unfolding on_event
on_event-Moves s e b =
    by_test (Moves b) (is_live s b.session)
      (λ l. Moves-trans (signalled-Moves (signal_for e) b) (on_wa_event-Moves s e _)) (λ l. no_move)

report-plain : (n : Notice) → is_report n ≡ true → is_plain n ≡ true
report-plain (problem x) e = e
report-plain (qr r c x i) e = refl
report-plain (pair_code r c) e = refl
report-plain (done r) e = refl
report-plain (other n) e = refl
report-plain (status s) e = ground arith
report-plain (logged_out_line r c) e = ground arith
report-plain (pair_failed r c) e = ground arith
report-plain (ready_line r c) e = refl
report-plain (pong r) e = refl
report-plain (paired r) e = refl
report-plain (signal r) e = refl

cancel_running-Moves : {b : Engine} → Moves b (cancel_running b)
unfolding cancel_running
cancel_running-Moves = quiet refl (omega arith)

-- Which steps are moves, and which are Stop's.
pub data Kind (b : Engine) : Engine → Type 0 where
  moves : {t : Engine} → Moves b t → Kind b t
  tells_status :
      (before : List State) (s : State) (after : List State) → Kind b (say_status before s after b)
  begins : Kind b (begin_stop b)
  closes : b.stopping ≡ true → Kind b (silence b)
  finishes :
      (close_fails : Bool) (removals : Removals)
      → b.out.quiesced ≡ true
      → b.ended ≡ false
      → Kind b (end_stop close_fails removals b)
  answers_shutdown :
      (id : String) → b.ended ≡ true → b.replied ≡ false → Kind b (answer_shutdown id b)

pub Step-Kind : {b t : Engine} → Step b t → Kind b t
Step-Kind (handles decode spell w linked id typ payload) =
    moves (handle_with-Moves decode spell w linked id typ payload _)
Step-Kind (receives s e) = moves (on_event-Moves s e _)
Step-Kind fails_to_connect = moves (connect_failed-Moves _)
Step-Kind (aborts p code c) = moves (abort_pair-Moves p code _ c)
Step-Kind (runs_out p) = moves (out_of_codes-Moves p pair_timeout _)
Step-Kind (refreshes fails linked s) = moves (refreshed-Moves fails linked s _)
Step-Kind (reports n e) = moves (one_move (says n (report-plain n e)))
Step-Kind (logs_out s info) = moves (logged_out_by-Moves s info _)
Step-Kind (stores st) = moves (quiet refl (omega arith))
Step-Kind (tells before s after e) = tells_status before s after
Step-Kind stops = begins
Step-Kind (silences s) = closes s
Step-Kind (cancels q) = moves cancel_running-Moves
Step-Kind (ends f r s e) = finishes f r s e
Step-Kind (replies id e a) = answers_shutdown id e a
