-- ===== src/Wa/Steps/Moves/Operations.antt =====
-- The moves that each operation of internal/wa/bridge.go and pairing.go makes.
use Prim.Native.String.{String}
use voolo_whatsapp_bridge.Common.{
  ℕ, suc, ◌≡◌, refl, ap, Bool, true, false, not, ◌||◌, List, Option, none, some, ltb, arith,
  by_test, ◌⊎◌, inl, inr,
}
use voolo_whatsapp_bridge.Protocol.Events.{
  connecting, reconnecting, unpaired, ErrorCode, PairReason, phone_invalid,
  pair_failed as pair_failed_code,
}
use voolo_whatsapp_bridge.Protocol.Commands.{Init}
use voolo_whatsapp_bridge.Store.Tables.{Store, Result, ok, err_closed, io_error, ChatRow}
use voolo_whatsapp_bridge.Wa.Lifecycle.{
  Engine, Notice, ready_line, paired, signal, Session, Pairing, Task, LogoutInfo, Surroundings,
  Opening, opens, key_invalid, locked_by_other, cannot_open, notify, refuse_with, set_state,
  go_safe, connect, connect_failed, if_live, install, announced, installed, first_state,
  exit_logged_out, with_store, opened, do_init, recorded, is_session, is_none, logged_out_by,
  cancel_session, client_outdated_signal, signal,
}
use voolo_whatsapp_bridge.Wa.Lifecycle.Pair.{
  start_pairing, unless_pairing, is_pairing, take_pair, current_pair, aborted, abort_pair,
  failed_with, out_of_codes, disconnected, ended_for, pair_end, taken_if, pair_success,
  outdated_fatal, client_is_outdated, refreshed,
}
use voolo_whatsapp_bridge.Wa.Steps.{is_pair_failed}
use voolo_whatsapp_bridge.Wa.Steps.Moves.{
  is_plain, open_pairs, says, answers, sets, exits, Moves, no_move, Moves-trans, one_move, quiet,
}

says_one : {b : Engine} (n : Notice) → is_plain n ≡ true → Moves b (notify n b)
says_one n e = one_move (says n e)

pub go_safe-Moves : (t : Task) (b : Engine) → Moves b (go_safe t b)
unfolding go_safe
go_safe-Moves t b = by_test (Moves b) b.stopping (λ e. no_move) (λ e. quiet refl (omega arith))

pub connect-Moves : (s : ℕ) (b : Engine) → Moves b (connect s b)
unfolding connect
connect-Moves s b = Moves-trans (one_move (sets connecting)) (go_safe-Moves _ _)

if_live-Moves : (s : Option Session) (b : Engine) → Moves b (if_live s (set_state reconnecting) b)
if_live-Moves none b = no_move
if_live-Moves (some s) b =
    by_test (Moves b) s.cancelled (λ e. no_move) (λ e. one_move (sets reconnecting))

pub connect_failed-Moves : (b : Engine) → Moves b (connect_failed b)
unfolding connect_failed
connect_failed-Moves b = if_live-Moves b.session b

-- doInit.
first_state-Moves :
    (account : Option String) (s : ℕ) (b : Engine) → Moves b (first_state account s b)
first_state-Moves (some jid) s b = connect-Moves s b
first_state-Moves none s b = one_move (sets unpaired)

announced-Moves : (w : Surroundings) (id : String) (b : Engine) → Moves b (announced w id b)
announced-Moves w id b =
    Moves-trans
      (Moves-trans (quiet {t = record b { inited = true }} refl (omega arith))
        (says_one (ready_line id w.account) refl))
      (first_state-Moves w.account w.session_number _)

install-Moves :
    (w : Surroundings) (id : String) (st : Store) (r : Result (List ChatRow)) (b : Engine)
    → Moves b (installed w id (install w st r b) b)
install-Moves w id st (ok rows) b =
    Moves-trans (Moves-trans (quiet refl (omega arith)) (go_safe-Moves _ _))
      (announced-Moves w id _)
install-Moves w id st err_closed b = says_one _ refl
install-Moves w id st io_error b = says_one _ refl

with_store-Moves :
    (w : Surroundings) (id : String) (c : Init) (st : Store) (b : Engine)
    → Moves b (with_store w id c st b)
unfolding with_store
with_store-Moves w id c st b =
    by_test (Moves b) w.client_fails (λ e. Moves-trans (quiet refl (omega arith)) (says_one _ refl))
      (λ e. Moves-trans (quiet refl (omega arith)) (install-Moves w id _ _ _))

opened-Moves :
    (w : Surroundings) (id : String) (c : Init) (o : Opening) (b : Engine)
    → Moves b (opened w id c o b)
opened-Moves w id c (opens st) b = with_store-Moves w id c st b
opened-Moves w id c key_invalid b = Moves-trans (says_one _ refl) (one_move (exits _))
opened-Moves w id c locked_by_other b = Moves-trans (says_one _ refl) (one_move (exits _))
opened-Moves w id c cannot_open b = says_one _ refl

pub do_init-Moves :
    (w : Surroundings) (id : String) (c : Init) (b : Engine) → Moves b (do_init w id c b)
unfolding do_init
do_init-Moves w id c b =
    by_test (Moves b) b.inited (λ e. says_one _ refl)
      (λ e.
        by_test (Moves b) w.dir_fails (λ d. says_one _ refl)
          (λ d.
            by_test (Moves b) w.restrict_fails (λ r. says_one _ refl)
              (λ r. opened-Moves w id c w.opening b)))

-- loggedOutBy.
recorded-Moves : (info : LogoutInfo) (b : Engine) → Moves b (recorded info b)
recorded-Moves info b =
    Moves-trans
      (quiet
        {t = record b { logged_out = some info; pair = none; session = cancel_session b.session }}
        refl (omega arith))
      (one_move (exits exit_logged_out))

pub logged_out_by-Moves :
    (s : ℕ) (info : LogoutInfo) (b : Engine) → Moves b (logged_out_by s info b)
unfolding logged_out_by
logged_out_by-Moves s info b =
    by_test (Moves b) (not (is_session s b.session)) (λ e. no_move)
      (λ e. by_test (Moves b) (is_none b.logged_out) (λ o. recorded-Moves info b) (λ o. no_move))

-- startPairing.
unless_pairing-Moves :
    (id phone : String) (p : Option Pairing) (b : Engine)
    → b.pair ≡ p
    → Moves b (unless_pairing id phone p b)
unless_pairing-Moves id phone (some p) b e = says_one _ refl
unless_pairing-Moves id phone none b e = Moves-trans (quiet refl (omega arith)) (go_safe-Moves _ _)

pub start_pairing-Moves :
    (linked : Bool) (id phone : String) (b : Engine) → Moves b (start_pairing linked id phone b)
unfolding start_pairing
start_pairing-Moves linked id phone b =
    by_test (Moves b) linked (λ e. says_one _ refl)
      (λ e. unless_pairing-Moves id phone b.pair b refl)

-- The ends of a pairing.
open_of_is_pairing : (n : ℕ) (p : Option Pairing) → is_pairing n p ≡ true → open_pairs p ≡ 1
open_of_is_pairing n none e = ground arith
open_of_is_pairing n (some p) e = refl

pub abort_pair-Moves :
    (p : Pairing) (code : ErrorCode) (b : Engine)
    → (code ≡ pair_failed_code) ⊎ (code ≡ phone_invalid)
    → Moves b (abort_pair p code b)
unfolding abort_pair take_pair
abort_pair-Moves p code b c =
    by_test (λ (r : Bool × Engine). Moves b (aborted p.reply_to code r))
      (is_pairing p.number b.pair) (λ e. answered c (open_of_is_pairing p.number b.pair e))
      (λ e. no_move)
  where
    answered :
        (code ≡ pair_failed_code) ⊎ (code ≡ phone_invalid)
        → open_pairs b.pair ≡ 1
        → Moves b (refuse_with p.reply_to code (record b { pair = none }))
    answered (inl e) o = one_move (answers _ (ap is_pair_failed e) o)
    answered (inr e) o =
        Moves-trans (quiet refl (omega arith)) (says_one _ (ap (λ d. not (is_pair_failed d)) e))

failed_with-Moves :
    (id : String) (reason : PairReason) (n : ℕ) (b : Engine)
    → Moves b (failed_with id reason (take_pair n b)).1
unfolding take_pair
failed_with-Moves id reason n b =
    by_test (λ (r : Bool × Engine). Moves b (failed_with id reason r).1) (is_pairing n b.pair)
      (λ e. one_move (answers _ refl (open_of_is_pairing n b.pair e))) (λ e. no_move)

disconnected-Moves :
    {a : Engine} (s : ℕ) (r : Bool × Engine) → Moves a r.1 → Moves a (disconnected s r).1
disconnected-Moves s (true, b) m = Moves-trans m (go_safe-Moves _ b)
disconnected-Moves s (false, b) m = m

ended_for-Moves :
    (s : ℕ) (reason : PairReason) (p : Option Pairing) (b : Engine)
    → Moves b (ended_for s reason p b).1
ended_for-Moves s reason none b = no_move
ended_for-Moves s reason (some p) b =
    disconnected-Moves s (failed_with p.reply_to reason (take_pair p.number b))
      (failed_with-Moves p.reply_to reason p.number b)

pub pair_end-Moves : (s : ℕ) (reason : PairReason) (b : Engine) → Moves b (pair_end s reason b).1
unfolding pair_end
pair_end-Moves s reason b = ended_for-Moves s reason (current_pair s b) b

pub out_of_codes-Moves :
    (p : Pairing) (reason : PairReason) (b : Engine) → Moves b (out_of_codes p reason b)
unfolding out_of_codes
out_of_codes-Moves p reason b = failed_with-Moves p.reply_to reason p.number b

taken_if-Moves : (p : Option Pairing) (b : Engine) → Moves b (taken_if p b)
unfolding take_pair
taken_if-Moves none b = no_move
taken_if-Moves (some p) b =
    by_test (λ (r : Bool × Engine). Moves b r.1) (is_pairing p.number b.pair)
      (λ e. quiet refl (omega arith)) (λ e. no_move)

pub pair_success-Moves : (s : ℕ) (jid : String) (b : Engine) → Moves b (pair_success s jid b)
unfolding pair_success
pair_success-Moves s jid b =
    Moves-trans (Moves-trans (taken_if-Moves (current_pair s b) b) (says_one (paired jid) refl))
      (one_move (sets connecting))

pub outdated_fatal-Moves : (s : ℕ) (b : Engine) → Moves b (outdated_fatal s b)
unfolding outdated_fatal
outdated_fatal-Moves s b =
    Moves-trans
      (Moves-trans
        (Moves-trans (says_one (signal client_outdated_signal) refl) (pair_end-Moves s _ _))
        (says_one _ refl))
      (one_move (exits _))

pub client_is_outdated-Moves :
    (refreshable : Bool) (s : ℕ) (b : Engine) → Moves b (client_is_outdated refreshable s b)
unfolding client_is_outdated
client_is_outdated-Moves refreshable s b =
    by_test (Moves b) (ltb 1 (suc b.outdated) || not refreshable)
      (λ e. Moves-trans (quiet refl (omega arith)) (outdated_fatal-Moves s _))
      (λ e. Moves-trans (quiet refl (omega arith)) (go_safe-Moves _ _))

pub refreshed-Moves :
    (fails linked : Bool) (s : ℕ) (b : Engine) → Moves b (refreshed fails linked s b)
unfolding refreshed
refreshed-Moves fails linked s b =
    by_test (Moves b) fails (λ e. outdated_fatal-Moves s b)
      (λ e. by_test (Moves b) linked (λ l. connect-Moves s b) (λ l. no_move))
