-- ===== src/Wa/Steps.antt =====
-- internal/wa/bridge.go and pairing.go: the engine under its goroutines. A step is one operation, done
-- by the reader of stdin, by WhatsApp's handler or by a goroutine, in any order. A status line is
-- written in a step of its own, some time after its change of the state; Stop takes four, and run's
-- answer to shutdown comes behind them. Between them, and after them, the other goroutines go on.
pub mod Moves
pub mod Contract
pub mod Counts
pub mod Ending
use Prim.Native.String.{String}
use voolo_whatsapp_bridge.Common.{
  ℕ, ◌≡◌, ◌⊎◌, Bool, true, false, not, List, [], ◌∷◌, ◌++◌, Option, none, some,
}
use voolo_whatsapp_bridge.Protocol.Text.{Text}
use voolo_whatsapp_bridge.Protocol.Events.{
  State, ErrorCode, ErrorEvent, pair_failed, phone_invalid, pair_timeout,
}
use voolo_whatsapp_bridge.Protocol.Commands.{Command}
use voolo_whatsapp_bridge.Protocol.Validate.{Checked}
use voolo_whatsapp_bridge.Protocol.Writer.{new_writer}
use voolo_whatsapp_bridge.History.Window.{new_window, window_size}
use voolo_whatsapp_bridge.Store.Tables.{Store, Removals}
use voolo_whatsapp_bridge.Wa.Lifecycle.{
  Engine, Notice, problem, qr, pair_code, done, other, Session, Pairing, LogoutInfo, Surroundings,
  notify, connect_failed, logged_out_by, say_status,
}
use voolo_whatsapp_bridge.Wa.Lifecycle.Stop.{
  begin_stop, end_stop, silence, cancel_running, answer_shutdown,
}
use voolo_whatsapp_bridge.Wa.Lifecycle.Pair.{abort_pair, out_of_codes, refreshed}
use voolo_whatsapp_bridge.Wa.Lifecycle.Handle.{handle_with, WaEvent, on_event}

abbrev pub is_pair_failed : ErrorCode → Bool
is_pair_failed pair_failed = true
is_pair_failed code = false

-- The lines that goroutines write by themselves.
abbrev pub is_report : Notice → Bool
is_report (problem e) = not (is_pair_failed e.code)
is_report (qr r c e i) = true
is_report (pair_code r c) = true
is_report (done r) = true
is_report (other n) = true
is_report _ = false

-- What a session's goroutines do to the store's tables leaves it open.
abbrev pub with_tables : Store → Option Session → Option Session
with_tables st none = none
with_tables st (some s) =
    some (record s { store = record st { closed = s.store.closed; locked = s.store.locked } })

pub data Step (b : Engine) : Engine → Type 0 where
  handles :
      (decode : String → Text → Checked Command) (spell : Text → String) (w : Surroundings)
      (linked : Bool) (id typ : String) (payload : Text)
      → Step b (handle_with decode spell w linked id typ payload b).1
  receives : (s : ℕ) (e : WaEvent) → Step b (on_event s e b)
  fails_to_connect : Step b (connect_failed b)
  aborts :
      (p : Pairing) (code : ErrorCode)
      → (code ≡ pair_failed) ⊎ (code ≡ phone_invalid)
      → Step b (abort_pair p code b)
  runs_out : (p : Pairing) → Step b (out_of_codes p pair_timeout b)
  refreshes : (fails linked : Bool) (s : ℕ) → Step b (refreshed fails linked s b)
  reports : (n : Notice) → is_report n ≡ true → Step b (notify n b)
  logs_out : (s : ℕ) (info : LogoutInfo) → Step b (logged_out_by s info b)
  stores : (st : Store) → Step b (record b { session = with_tables st b.session })
  tells :
      (before : List State) (s : State) (after : List State)
      → b.unsaid ≡ before ++ s ∷ after
      → Step b (say_status before s after b)
  stops : Step b (begin_stop b)
  silences : b.stopping ≡ true → Step b (silence b)
  cancels : b.out.quiesced ≡ true → Step b (cancel_running b)
  ends :
      (close_fails : Bool) (removals : Removals)
      → b.out.quiesced ≡ true
      → b.ended ≡ false
      → Step b (end_stop close_fails removals b)
  replies : (id : String) → b.ended ≡ true → b.replied ≡ false → Step b (answer_shutdown id b)

pub data Runs (b : Engine) : Engine → Type 0 where
  here : Runs b b
  later : {s t : Engine} → Runs b s → Step s t → Runs b t

-- New: the bridge before its first command.
abbrev pub new_engine : Engine
new_engine = record {
  out = new_writer;
  inited = false;
  limits = none;
  session = none;
  state = none;
  pair = none;
  pairings = [];
  unsaid = [];
  stopping = false;
  ended = false;
  replied = false;
  outdated = 0;
  logged_out = none;
  sends = [];
  window = new_window window_size;
  reported = [];
  fatal = none;
  tasks = [];
}
