-- ===== src/Wa/Steps/Contract/Obeyed.antt =====
-- The engine of internal/wa keeps the promises.
use Prim.Native.String.{String}
use voolo_whatsapp_bridge.Common.{
  ℕ, ◌≡◌, refl, sym, subst, Bool, true, false, List, ◌++◌, Option, none, some, by_test, Bool-cases,
  inl, inr,
}
use voolo_whatsapp_bridge.Protocol.Events.{State}
use voolo_whatsapp_bridge.Protocol.Writer.Laws.{emit_open, emit_quiesced, emit_final}
use voolo_whatsapp_bridge.Store.Tables.{Removals}
use voolo_whatsapp_bridge.Wa.Lifecycle.{
  Engine, Notice, status, done, notify, set_state, same_state, say_status, first_of, notify_last,
}
use voolo_whatsapp_bridge.Wa.Lifecycle.Stop.{begin_stop, silence, end_stop, answer_shutdown}
use voolo_whatsapp_bridge.Wa.Steps.{Step, Runs, here, later}
use voolo_whatsapp_bridge.Wa.Steps.Ending.{Ends, end_stop-Ends, end_stop-ended}
use voolo_whatsapp_bridge.Wa.Steps.Moves.{
  Frame, Move, says, answers, sets, exits, silent, Moves, no_move, then_move,
}
use voolo_whatsapp_bridge.Wa.Steps.Moves.All.{
  Kind, moves, tells_status, begins, closes, finishes, answers_shutdown, Step-Kind,
}
use voolo_whatsapp_bridge.Wa.Steps.Contract.Promised.{Quiet, Promises-Quiet}
use voolo_whatsapp_bridge.Wa.Steps.Contract.{View, Promise, Promises, none_yet, and_then, view}

-- From one state to another, by promises.
abbrev Obeys : Engine → Engine → Type 0
Obeys b t = Promises (view b) (view t)

Promises-trans : {u v w : View} → Promises u v → Promises v w → Promises u w
Promises-trans p none_yet = p
Promises-trans p (and_then q r) = and_then (Promises-trans p q) r

-- A line of the engine is written, or dropped when the output is closed.
notify-Obeys : (n : Notice) (b : Engine) → Obeys b (notify n b)
unfolding notify
notify-Obeys n b = elim (Bool-cases b.out.quiesced) [
  | inl e ↦ subst (λ w. Obeys b (record b { out = w })) (sym (emit_quiesced n b.out e)) none_yet
  | inr e ↦
      subst (λ w. Obeys b (record b { out = w })) (sym (emit_open n b.out e))
        (and_then none_yet (Promise.writes n e))
]

exit-Obeys :
    (o : Option ℕ) (c : ℕ) (b : Engine) → b.fatal ≡ o → Obeys b (record b { fatal = first_of o c })
exit-Obeys none c b e = and_then none_yet (Promise.asks c e)
exit-Obeys (some d) c b e = subst (λ o. Promises (view b) (record (view b) { code = o })) e none_yet

set_state-Obeys : (s : State) (b : Engine) → Obeys b (set_state s b)
unfolding set_state
set_state-Obeys s b = by_test (Obeys b) (same_state b.state s) (λ e. none_yet) (λ e. none_yet)

Frame-Obeys : {b t : Engine} → Frame b t → Obeys b t
Frame-Obeys f =
    rw (f.same_stopping, f.same_ended, f.same_out, f.same_fatal, f.same_replied) none_yet

Move-Obeys : {b t : Engine} → Move b t → Obeys b t
Move-Obeys (says n p) = notify-Obeys n _
Move-Obeys {b} (answers n p o) = notify-Obeys n (record b { pair = none })
Move-Obeys {b} (sets s) = set_state-Obeys s b
Move-Obeys {b} (exits c) = exit-Obeys b.fatal c b refl
Move-Obeys (silent f) = Frame-Obeys f

Moves-Obeys : {b t : Engine} → Moves b t → Obeys b t
Moves-Obeys no_move = none_yet
Moves-Obeys (then_move ms m) = Promises-trans (Moves-Obeys ms) (Move-Obeys m)

say_status-Obeys :
    (before : List State) (s : State) (after : List State) (b : Engine)
    → Obeys b (say_status before s after b)
unfolding say_status
say_status-Obeys before s after b = notify-Obeys (status s) (record b { unsaid = before ++ after })

begin_stop-Obeys : (b : Engine) → Obeys b (begin_stop b)
unfolding begin_stop
begin_stop-Obeys b =
    by_test (Obeys b) b.stopping (λ e. none_yet) (λ e. and_then none_yet (Promise.begins e))

silence-Obeys : (b : Engine) → b.stopping ≡ true → Obeys b (silence b)
unfolding silence
silence-Obeys b s = and_then none_yet (Promise.closes s)

end_stop-Obeys :
    (fails : Bool) (removals : Removals) (b : Engine)
    → b.out.quiesced ≡ true
    → b.ended ≡ false
    → Obeys b (end_stop fails removals b)
end_stop-Obeys fails removals b s d =
    rw (e.stopping, e.fatal, e.added, e.quiesced, e.replied, end_stop-ended fails removals b)
      (and_then none_yet (Promise.leaves e.lines s d e.ordered e.final))
  where
    e : Ends 1 5 1 b (end_stop fails removals b)
    e = end_stop-Ends fails removals b

answer_shutdown-Obeys :
    (id : String) (b : Engine) → b.ended ≡ true → b.replied ≡ false → Obeys b (answer_shutdown id b)
unfolding answer_shutdown notify_last
answer_shutdown-Obeys id b d r =
    subst (λ w. Obeys b (record b { out = w; replied = true })) (sym (emit_final (done id) b.out))
      (and_then none_yet (Promise.answers id d r))

Step-Obeys : {b t : Engine} → Step b t → Obeys b t
Step-Obeys st = kind (Step-Kind st)
  where
    kind : {b t : Engine} → Kind b t → Obeys b t
    kind (moves ms) = Moves-Obeys ms
    kind {b} (tells_status before s after) = say_status-Obeys before s after b
    kind {b} begins = begin_stop-Obeys b
    kind {b} (closes s) = silence-Obeys b s
    kind {b} (finishes fails removals s d) = end_stop-Obeys fails removals b s d
    kind {b} (answers_shutdown id e r) = answer_shutdown-Obeys id b e r

-- Between any two states of a run, whatever the goroutines do and in whatever order, the bridge
-- keeps its promises: from what is seen of the one, they allow what is seen of the other.
pub Runs-Promises : {s t : Engine} → Runs s t → Promises (view s) (view t)
Runs-Promises here = none_yet
Runs-Promises (later r st) = Promises-trans (Runs-Promises r) (Step-Obeys st)

-- From the moment that Stop has closed the writer, whatever the goroutines that still run do: nothing
-- is written until Stop ends, then its last lines in the order of the protocol, each once at most (an
-- error of the store, the logout, the status, the ok for logout), and behind them at most one ok, when
-- shutdown is answered.
pub stop_is_final : {s t : Engine} → s.out.quiesced ≡ true → Runs s t → Quiet (view s) (view t)
stop_is_final closed after = Promises-Quiet (Runs-Promises after) closed
