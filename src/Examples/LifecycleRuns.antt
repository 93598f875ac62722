-- ===== src/Examples/LifecycleRuns.antt =====
-- Runs of internal/wa/bridge.go and pairing.go: a linked account that starts, a logout that comes while
-- Stop waits, and the codes of a pairing.
use Prim.Native.String.{String, len}
use text.Mathlib.Text.{◌==◌ as str_eq}
use voolo_whatsapp_bridge.Common.{
  ℕ, ◌≡◌, ◌≢◌, refl, arith, true, false, List, [], ◌∷◌, none, some, if◌then◌else◌,
}
use voolo_whatsapp_bridge.Protocol.Text.{Text}
use voolo_whatsapp_bridge.Protocol.Events.{primary_gone}
use voolo_whatsapp_bridge.Protocol.Commands.{Command, Init, init, nonneg}
use voolo_whatsapp_bridge.Protocol.Validate.{Checked, accepted}
use voolo_whatsapp_bridge.Protocol.Fields.{is_command}
use voolo_whatsapp_bridge.Store.Tables.{Store, Removals, removed, absent, remove_failed}
use voolo_whatsapp_bridge.Store.Chats.{chats}
use voolo_whatsapp_bridge.Store.Media.{prune_media}
use voolo_whatsapp_bridge.Wa.Lifecycle.{
  Engine, Surroundings, opens, LogoutInfo, notify, logged_out_by,
}
use voolo_whatsapp_bridge.Wa.Lifecycle.Stop.{
  begin_stop, silence, cancel_running, end_stop, answer_shutdown,
}
use voolo_whatsapp_bridge.Wa.Lifecycle.Handle.{handle_with}
use voolo_whatsapp_bridge.Wa.Lifecycle.Codes.{
  Showing, Wake, expired, rotated, still_waiting, cycle_codes,
}
use voolo_whatsapp_bridge.Wa.Lifecycle.Codes.Shown.{cycle_codes-ends}
use voolo_whatsapp_bridge.Wa.Steps.{
  Runs, here, later, handles, logs_out, stops, silences, cancels, ends, replies, new_engine,
}
use voolo_whatsapp_bridge.Wa.Steps.Contract.{Promises, view}
use voolo_whatsapp_bridge.Wa.Steps.Contract.Promised.{Quiet}
use voolo_whatsapp_bridge.Wa.Steps.Contract.Obeyed.{Runs-Promises, stop_is_final}
use voolo_whatsapp_bridge.Wa.Steps.Counts.{Counted, Runs-Counted}
use voolo_whatsapp_bridge.Wa.Steps.Ending.Stores.{left_of, end_stop-left_of}

abbrev store : Store
store = record { closed = false; locked = true; sent = []; media = []; chats = [] }

abbrev surroundings : Surroundings
surroundings = record {
  dir_fails = false;
  restrict_fails = false;
  opening = opens store;
  recent_fails = false;
  prune_fails = false;
  client_fails = false;
  chats_fail = false;
  now = 1000000000000;
  account = some "1@s.whatsapp.net";
  session_number = 1;
}

abbrev first_command : Init
first_command = record {
  store_key = [];
  store_dir = [];
  media_dir = [];
  device_name = [];
  limits = record {
    history_days = nonneg 30;
    history_max_per_chat = nonneg 100;
    image_max_bytes = nonneg 1000;
    voice_max_seconds = nonneg 60;
    voice_max_bytes = none;
    video_max_bytes = none;
    file_max_bytes = none;
  };
}

abbrev decodes : String → Text → Checked Command
decodes typ payload = accepted (init first_command)

abbrev no_spelling : Text → String
no_spelling t = ""

abbrev started : Engine
started = (handle_with decodes no_spelling surroundings true "I1" "init" [] new_engine).1

abbrev starting : Runs new_engine started
starting = later here (handles decodes no_spelling surroundings true "I1" "init" [])

Runs-trans : {a b c : Engine} → Runs a b → Runs b c → Runs a c
Runs-trans r here = r
Runs-trans r (later q st) = later (Runs-trans r q) st

abbrev logout : LogoutInfo
logout = record { reason = primary_gone; code = 411; reply_to = "L1" }

-- The database file is in use; what stands beside it goes.
abbrev removals : Removals
removals = record { database = remove_failed; wal = removed; shm = removed; journal = absent }

-- Stop has closed the output, and a logout comes in before it ends.
abbrev closed : Engine
closed = cancel_running (silence (begin_stop started))

abbrev unlinked : Engine
unlinked = logged_out_by 1 logout closed

abbrev stopped_late : Engine
stopped_late = end_stop false removals unlinked

abbrev answered : Engine
answered = answer_shutdown "S1" stopped_late

closing : Runs started closed
unfolding begin_stop silence cancel_running handle_with is_command chats prune_media notify
closing = later (later (later here stops) (silences refl)) (cancels refl)

unlinking : Runs closed unlinked
unlinking = later here (logs_out 1 logout)

ending : Runs unlinked stopped_late
unfolding begin_stop silence cancel_running handle_with logged_out_by is_command chats prune_media
    notify
ending = later here (ends false removals refl refl)

answering : Runs unlinked answered
unfolding begin_stop silence cancel_running handle_with logged_out_by is_command chats prune_media
    notify end_stop
answering = later ending (replies "S1" refl refl)

Runs-Promises_example : Promises (view unlinked) (view answered)
Runs-Promises_example = Runs-Promises answering

stop_is_final_example : Quiet (view unlinked) (view answered)
unfolding begin_stop silence cancel_running handle_with logged_out_by is_command chats prune_media
    notify
stop_is_final_example = stop_is_final refl answering

Runs-Counted_example : Counted answered
Runs-Counted_example =
    Runs-Counted (Runs-trans (Runs-trans (Runs-trans starting closing) unlinking) answering)

end_stop-left_of_example :
    stopped_late.session
    ≡ some
        (record { number = 1; store = left_of remove_failed (some logout) store; cancelled = true })
unfolding begin_stop silence cancel_running handle_with logged_out_by is_command chats prune_media
    notify
end_stop-left_of_example =
    end_stop-left_of false removals (record { number = 1; store = store; cancelled = true })
      unlinked refl

abbrev showing : Showing
showing = record {
  replace = λ text old new. if str_eq text old then new else text;
  code_bytes = λ code. len code;
  reply_to = "P1";
  phone = "";
  qr_first = 60000;
  qr_next = 20000;
}

abbrev wakes : List (ℕ × Wake)
wakes = (1000, rotated "a" "c") ∷ (2000, expired) ∷ (3000, expired) ∷ []

cycle_codes-ends_example : (cycle_codes showing 0 ("a" ∷ "b" ∷ []) wakes).1 ≢ still_waiting
cycle_codes-ends_example = cycle_codes-ends showing 0 ("a" ∷ "b" ∷ []) wakes (omega arith)
