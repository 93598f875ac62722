-- ===== src/Wa/Lifecycle.antt =====
-- internal/wa/bridge.go: the engine's state, what it writes, its exit code, doInit, connect and
-- loggedOutBy. The record Engine has the bridge's fields that these use; sessions and pairings are
-- told apart by numbers, as their pointers are in the source. `fatal` is the channel of one code and
-- `tasks` the goroutines that goSafe has started, newest first. Where the source unlocks the bridge and
-- goes on, others may come between: changeState leaves its line in `unsaid`, from where it is written
-- later, and Stop is four functions, cut at its first unlock, behind Quiesce and at its wait. The log,
-- and a write to stdout that fails, are left out. No line of these parts comes near MaxLineBytes, so
-- each event is its own line.
pub mod Pair
pub mod Codes
pub mod Handle
pub mod Stop
use Prim.Native.String.{String}
use text.Mathlib.Text.{◌==◌ as str_eq}
use voolo_whatsapp_bridge.Common.{
  ℕ, ◌-◌, ◌*◌, ◌/◌, map, Bool, true, false, not, List, [], ◌∷◌, ◌++◌, Option, none, some, ◌==◌,
  if◌then◌else◌,
}
use voolo_whatsapp_bridge.Protocol.Events.{
  ErrorCode, ErrorEvent, new_error, store_io, store_key_invalid, store_locked, already_initialized,
  State, unpaired, connecting, connected, reconnecting, stopped, LogoutReason, PairReason,
}
use voolo_whatsapp_bridge.Protocol.Commands.{Limits, Init}
use voolo_whatsapp_bridge.Protocol.Writer.{Writer, line, emit_event, quiesce}
use voolo_whatsapp_bridge.History.Window.{Window}
use voolo_whatsapp_bridge.Store.Tables.{Store, ChatRow, Result, ok, close, wipe, Removals}
use voolo_whatsapp_bridge.Store.Outbox.{recent_sends}
use voolo_whatsapp_bridge.Store.Media.{prune_media}
use voolo_whatsapp_bridge.Store.Chats.{chats}
use voolo_whatsapp_bridge.Wa.Backstop.{window, clamp_sends}

-- Signal, as far as onEvent makes them here; the times are milliseconds.
pub data Signal : Type 0 where
  temp_banned : ℕ → ℕ → Signal  -- code, expiry
  stream_replaced_signal keepalive_timeout_signal client_outdated_signal : Signal
  rate_limited_signal connect_failure_signal : ℕ → Signal

-- The lines of the engine; `other` stands for the events of the chats, messages and commands.
pub data Notice : Type 0 where
  status : State → Notice
  problem : ErrorEvent → Notice
  ready_line : String → Option String → Notice  -- reply, and the account if it is paired
  pong done : String → Notice
  qr : String → String → ℕ → ℕ → Notice  -- reply, code, expiry, index
  pair_code : String → String → Notice
  paired : String → Notice
  pair_failed : String → PairReason → Notice
  signal : Signal → Notice
  logged_out_line : LogoutReason → ℕ → Notice
  other : ℕ → Notice

-- The exit codes of section 9.
abbrev pub exit_store_key : ℕ
exit_store_key = 3

abbrev pub exit_store_locked : ℕ
exit_store_locked = 4

abbrev pub exit_client_outdated : ℕ
exit_client_outdated = 5

abbrev pub exit_logged_out : ℕ
exit_logged_out = 7

-- session.
pub record Session : Type 0 where
  pub number : ℕ
  pub store : Store
  pub cancelled : Bool

-- pairing, without its channels.
pub record Pairing : Type 0 where
  pub number : ℕ
  pub reply_to : String
  pub phone : String
  pub session : ℕ

-- logoutInfo.
pub record LogoutInfo : Type 0 where
  pub reason : LogoutReason
  pub code : ℕ
  pub reply_to : String

-- What the engine runs on goroutines.
pub data Task : Type 0 where
  history_loop connecting_task disconnecting refreshing : ℕ → Task
  running_pairing : Pairing → Task
  logging_out : LogoutReason → ℕ → Task
  command : String → Task

-- Bridge.
pub record Engine : Type 0 where
  pub out : Writer Notice
  pub inited : Bool
  pub limits : Option Limits
  pub session : Option Session
  pub state : Option State
  pub pair : Option Pairing
  pub pairings : List String  -- the commands whose pairing was accepted, newest first
  pub unsaid : List State  -- the status lines that are still to be written
  pub stopping : Bool  -- the field stopped
  pub ended : Bool  -- Stop has returned
  pub replied : Bool  -- the shutdown command was answered
  pub outdated : ℕ
  pub logged_out : Option LogoutInfo
  pub sends : List ℕ
  pub window : Window
  pub reported : List ChatRow
  pub fatal : Option ℕ
  pub tasks : List Task

-- emit and emitFinal.
unfoldable pub notify : Notice → Engine → Engine
unfolding emit_event
notify n b = record b { out = (emit_event line false false n b.out).1 }

unfoldable pub notify_last : Notice → Engine → Engine
unfolding emit_event
notify_last n b = record b { out = (emit_event line false true n b.out).1 }

-- exit: the first request wins.
abbrev pub first_of : Option ℕ → ℕ → Option ℕ
first_of none code = some code
first_of (some c) code = some c

abbrev pub exit_with : ℕ → Engine → Engine
exit_with code b = record b { fatal = first_of b.fatal code }

-- fail and failFatal.
abbrev pub refuse_with : String → ErrorCode → Engine → Engine
refuse_with id code = notify (problem (new_error id code))

abbrev pub fail_fatal : String → ErrorCode → ℕ → Engine → Engine
fail_fatal id code exit b =
    exit_with exit (notify (problem (record (new_error id code) { fatal = true })) b)

abbrev pub state_number : State → ℕ
state_number unpaired = 0
state_number connecting = 1
state_number connected = 2
state_number reconnecting = 3
state_number stopped = 4

abbrev pub same_state : Option State → State → Bool
same_state none s = false
same_state (some t) s = state_number t == state_number s

-- changeState with emit, up to its unlock: the line of a new state is still to be written.
unfoldable pub set_state : State → Engine → Engine
set_state s b =
    let b' = record b { state = some s } in
    if same_state b.state s then b' else record b' { unsaid = s ∷ b.unsaid }

-- Its emit, of one of the lines that are to be written.
unfoldable pub say_status : List State → State → List State → Engine → Engine
unfolding notify
say_status before s after b = notify (status s) (record b { unsaid = before ++ after })

-- goSafe: after Stop has begun it starts nothing.
unfoldable pub go_safe : Task → Engine → Engine
go_safe t b = if b.stopping then b else record b { tasks = t ∷ b.tasks }

-- connect, up to the start of its goroutine; and the goroutine when Connect has failed.
unfoldable pub connect : ℕ → Engine → Engine
unfolding set_state go_safe
connect s b = go_safe (connecting_task s) (set_state connecting b)

abbrev pub if_live : Option Session → (Engine → Engine) → Engine → Engine
if_live none f b = b
if_live (some s) f b = if s.cancelled then b else f b

unfoldable pub connect_failed : Engine → Engine
unfolding set_state
connect_failed b = if_live b.session (set_state reconnecting) b

-- How OpenStore ends.
pub data Opening : Type 0 where
  opens : Store → Opening
  key_invalid locked_by_other cannot_open : Opening

-- What doInit finds outside of the bridge; `now` is in nanoseconds, the store's times in milliseconds.
pub record Surroundings : Type 0 where
  pub dir_fails : Bool
  pub restrict_fails : Bool
  pub opening : Opening
  pub recent_fails : Bool
  pub prune_fails : Bool
  pub client_fails : Bool
  pub chats_fail : Bool
  pub now : ℕ
  pub account : Option String
  pub session_number : ℕ

abbrev pub or_no_sends : Result (List ℕ) → List ℕ
or_no_sends (ok ts) = ts
or_no_sends _ = []

-- install: the session, or none with an error.
abbrev pub install : Surroundings → Store → Result (List ChatRow) → Engine → Option Engine
install w st (ok rows) b = some (
    go_safe (history_loop w.session_number) (record b {
      session = some (record { number = w.session_number; store = st; cancelled = false });
      reported = rows;
    }))
install w st _ b = none

-- doInit after the session is installed.
abbrev pub first_state : Option String → ℕ → Engine → Engine
first_state (some jid) s b = connect s b
first_state none s b = set_state unpaired b

abbrev pub announced : Surroundings → String → Engine → Engine
announced w id b =
    let b' = notify (ready_line id w.account) (record b { inited = true }) in
    first_state w.account w.session_number b'

abbrev pub installed : Surroundings → String → Option Engine → Engine → Engine
installed w id (some b') b = announced w id b'
installed w id none b = refuse_with id store_io b

-- doInit with the store open.
unfoldable pub with_store : Surroundings → String → Init → Store → Engine → Engine
unfolding go_safe set_state connect
with_store w id c st b =
    let sends = or_no_sends (recent_sends w.recent_fails ((w.now - window) / 1000000) st).0 in
    let b' = record b {
      limits = some c.limits;
      sends = clamp_sends (map (λ t. t * 1000000) sends) w.now;
    } in
    let pruned = (prune_media w.prune_fails (w.now / 1000000) st).1 in
    if w.client_fails
    then refuse_with id store_io b'
    else installed w id (install w pruned (chats w.chats_fail pruned).0 b') b'

abbrev pub opened : Surroundings → String → Init → Opening → Engine → Engine
opened w id c (opens st) b = with_store w id c st b
opened w id c key_invalid b = fail_fatal id store_key_invalid exit_store_key b
opened w id c locked_by_other b = fail_fatal id store_locked exit_store_locked b
opened w id c cannot_open b = refuse_with id store_io b

-- doInit.
unfoldable pub do_init : Surroundings → String → Init → Engine → Engine
unfolding with_store
do_init w id c b =
    if b.inited
    then refuse_with id already_initialized b
    else (if w.dir_fails
        then refuse_with id store_io b
        else (if w.restrict_fails then refuse_with id store_io b else opened w id c w.opening b))

-- loggedOutBy for the session `s`.
abbrev pub cancel_session : Option Session → Option Session
cancel_session none = none
cancel_session (some s) = some (record s { cancelled = true })

abbrev pub recorded : LogoutInfo → Engine → Engine
recorded info b =
    exit_with exit_logged_out
      (record b { logged_out = some info; pair = none; session = cancel_session b.session })

abbrev pub is_session : ℕ → Option Session → Bool
is_session n none = false
is_session n (some s) = s.number == n

abbrev pub is_none {ℓ} : {A : Type ℓ} → Option A → Bool
is_none none = true
is_none (some a) = false

unfoldable pub logged_out_by : ℕ → LogoutInfo → Engine → Engine
logged_out_by old info b =
    if not (is_session old b.session)
    then b
    else (if is_none b.logged_out then recorded info b else b)
