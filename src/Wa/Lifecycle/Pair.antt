-- ===== src/Wa/Lifecycle/Pair.antt =====
-- internal/wa/pairing.go: how a pairing starts and ends, and WhatsApp's answer that the client is
-- outdated. What only cancels a context or disconnects the client changes no field of Engine.
use Prim.Native.String.{String}
use voolo_whatsapp_bridge.Common.{
  ℕ, suc, Bool, true, false, not, ◌||◌, ◌∷◌, Option, none, some, length, ltb, ◌==◌, if◌then◌else◌,
}
use voolo_whatsapp_bridge.Protocol.Events.{
  ErrorCode, already_paired, busy, client_outdated, connecting, PairReason, pair_client_outdated,
}
use voolo_whatsapp_bridge.Wa.Lifecycle.{
  Engine, Pairing, running_pairing, disconnecting, refreshing, notify, paired, pair_failed, signal,
  client_outdated_signal, refuse_with, fail_fatal, exit_client_outdated, set_state, go_safe,
  connect,
}

-- startPairing from the test of the current pairing on.
abbrev pub pairing_of : String → String → Engine → Pairing
pairing_of id phone b = record {
  number = length b.pairings;
  reply_to = id;
  phone = phone;
  session = elim b.session [ some s ↦ s.number | none ↦ 0 ];
}

abbrev pub unless_pairing : String → String → Option Pairing → Engine → Engine
unless_pairing id phone (some p) b = refuse_with id busy b
unless_pairing id phone none b =
    let p = pairing_of id phone b in
    go_safe (running_pairing p) (record b { pair = some p; pairings = id ∷ b.pairings })

-- startPairing: `linked` says that the client has an account.
unfoldable pub start_pairing : Bool → String → String → Engine → Engine
unfolding go_safe
start_pairing linked id phone b =
    if linked then refuse_with id already_paired b else unless_pairing id phone b.pair b

-- takePair.
abbrev pub is_pairing : ℕ → Option Pairing → Bool
is_pairing n none = false
is_pairing n (some p) = p.number == n

unfoldable pub take_pair : ℕ → Engine → Bool × Engine
take_pair n b = if is_pairing n b.pair then (true, record b { pair = none }) else (false, b)

-- currentPair.
abbrev pub pair_in : ℕ → Option Pairing → Option Pairing
pair_in s none = none
pair_in s (some p) = if p.session == s then some p else none

unfoldable pub current_pair : ℕ → Engine → Option Pairing
current_pair s b = pair_in s b.pair

-- abortPair.
abbrev pub aborted : String → ErrorCode → Bool × Engine → Engine
aborted id code (false, b) = b
aborted id code (true, b) = refuse_with id code b

unfoldable pub abort_pair : Pairing → ErrorCode → Engine → Engine
unfolding take_pair
abort_pair p code b = aborted p.reply_to code (take_pair p.number b)

-- The end of cycleCodes when the codes have run out, and pairEnd from takePair on.
abbrev pub failed_with : String → PairReason → Bool × Engine → Bool × Engine
failed_with id reason (false, b) = (false, b)
failed_with id reason (true, b) = (true, notify (pair_failed id reason) b)

unfoldable pub out_of_codes : Pairing → PairReason → Engine → Engine
unfolding take_pair
out_of_codes p reason b = (failed_with p.reply_to reason (take_pair p.number b)).1

-- pairEnd: whether a pairing was running.
abbrev pub disconnected : ℕ → Bool × Engine → Bool × Engine
disconnected s (false, b) = (false, b)
disconnected s (true, b) = (true, go_safe (disconnecting s) b)

abbrev pub ended_for : ℕ → PairReason → Option Pairing → Engine → Bool × Engine
ended_for s reason none b = (false, b)
ended_for s reason (some p) b =
    disconnected s (failed_with p.reply_to reason (take_pair p.number b))

unfoldable pub pair_end : ℕ → PairReason → Engine → Bool × Engine
unfolding take_pair go_safe current_pair
pair_end s reason b = ended_for s reason (current_pair s b) b

-- pairSuccess.
abbrev pub taken_if : Option Pairing → Engine → Engine
taken_if none b = b
taken_if (some p) b = (take_pair p.number b).1

unfoldable pub pair_success : ℕ → String → Engine → Engine
unfolding take_pair set_state current_pair
pair_success s jid b = set_state connecting (notify (paired jid) (taken_if (current_pair s b) b))

-- outdatedFatal.
unfoldable pub outdated_fatal : ℕ → Engine → Engine
unfolding pair_end
outdated_fatal s b =
    fail_fatal "" client_outdated exit_client_outdated
      (pair_end s pair_client_outdated (notify (signal client_outdated_signal) b)).1

-- clientOutdated up to its goroutine; `refreshable` says that RefreshVersion is set.
unfoldable pub client_is_outdated : Bool → ℕ → Engine → Engine
unfolding outdated_fatal go_safe
client_is_outdated refreshable s b =
    let b' = record b { outdated = suc b.outdated } in
    if ltb 1 b'.outdated || not refreshable then outdated_fatal s b' else go_safe (refreshing s) b'

-- The goroutine of clientOutdated: a refresh that failed, or one after which a linked client connects.
unfoldable pub refreshed : Bool → Bool → ℕ → Engine → Engine
unfolding outdated_fatal connect
refreshed fails linked s b =
    if fails then outdated_fatal s b else (if linked then connect s b else b)
