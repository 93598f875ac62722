-- ===== src/Wa/Steps/Contract/Promised.antt =====
-- What follows from the promises alone.
use voolo_whatsapp_bridge.Common.{
  ℕ, ◌≤◌, ◌≡◌, refl, sym, ap, ◌∙◌, true, false, List, [], ◌∷◌, ◌++◌, some, length, All, arith,
}
use voolo_whatsapp_bridge.Wa.Lifecycle.{Notice, done}
use voolo_whatsapp_bridge.Wa.Steps.Ending.{is_final, rank, Between}
use voolo_whatsapp_bridge.Wa.Steps.Contract.{
  View, Promise, writes, asks, begins, closes, leaves, answers, Promises, none_yet, and_then,
}

-- The first exit code stays.
Promise-code : {v w : View} (c : ℕ) → Promise v w → v.code ≡ some c → w.code ≡ some c
Promise-code c (writes n s) e = e
Promise-code c (asks d f) e = ground arith
Promise-code c (begins s) e = e
Promise-code c (closes s) e = e
Promise-code c (leaves last s d l f) e = e
Promise-code c (answers id d r) e = e

pub Promises-code : {v w : View} (c : ℕ) → Promises v w → v.code ≡ some c → w.code ≡ some c
Promises-code c none_yet e = e
Promises-code c (and_then p q) e = Promise-code c q (Promises-code c p e)

-- What a bridge with its output closed has written since `v`: nothing before it has stopped, then its
-- last lines in their order, and behind them one answer when shutdown was answered.
pub record Quiet (v w : View) : Type 0 where
  pub stays : w.closed ≡ true
  pub last : List Notice
  pub reply : List Notice
  pub only : w.lines ≡ reply ++ (last ++ v.lines)
  pub final : All (λ n. is_final n ≡ true) last
  pub ordered : Between 1 5 last
  pub answer : All (λ n. rank n ≡ 4) reply
  pub once : length reply ≤ 1
  pub unanswered : w.replied ≡ false → reply ≡ []
  pub before : w.ended ≡ false → (last ≡ []) × (reply ≡ [])

-- What is seen otherwise may change.
same-Quiet :
    {v u w : View}
    → w.closed ≡ true
    → w.lines ≡ u.lines
    → w.replied ≡ u.replied
    → w.ended ≡ u.ended
    → Quiet v u
    → Quiet v w
same-Quiet s l r e q = record {
  stays = s;
  last = q.last;
  reply = q.reply;
  only = l ∙ q.only;
  final = q.final;
  ordered = q.ordered;
  answer = q.answer;
  once = q.once;
  unanswered = λ h. q.unanswered (sym r ∙ h);
  before = λ h. q.before (sym e ∙ h);
}

Quiet-next : {v u w : View} → Quiet v u → Promise u w → Quiet v w
Quiet-next q (writes n s) = absurd (ground (arith, q.stays))
Quiet-next q (asks c f) = same-Quiet q.stays refl refl refl q
Quiet-next q (begins s) = same-Quiet q.stays refl refl refl q
Quiet-next q (closes s) = same-Quiet refl refl refl refl q
Quiet-next {v} {u} q (leaves last s d o f) = record {
  stays = s;
  last = last;
  reply = [];
  only = ap (λ ls. last ++ ls) (nothing_yet q (q.before d));
  final = f;
  ordered = o;
  answer = tt;
  once = omega arith;
  unanswered = λ e. refl;
  before = λ e. absurd (ground (arith, e));
}
  where
    nothing_yet : (q : Quiet v u) → (q.last ≡ []) × (q.reply ≡ []) → u.lines ≡ v.lines
    nothing_yet q (l, r) =
        q.only ∙ ap (λ ls. ls ++ (q.last ++ v.lines)) r ∙ ap (λ ls. ls ++ v.lines) l
Quiet-next {v} q (answers id d r) = record {
  stays = q.stays;
  last = q.last;
  reply = done id ∷ [];
  only = ap (λ ls. done id ∷ ls) (q.only ∙ ap (λ ls. ls ++ (q.last ++ v.lines)) (q.unanswered r));
  final = q.final;
  ordered = q.ordered;
  answer = (refl, tt);
  once = omega arith;
  unanswered = λ e. absurd (ground (arith, e));
  before = λ e. absurd (ground (arith, e, d));
}

pub Promises-Quiet : {v w : View} → Promises v w → v.closed ≡ true → Quiet v w
Promises-Quiet none_yet s = record {
  stays = s;
  last = [];
  reply = [];
  only = refl;
  final = tt;
  ordered = omega arith;
  answer = tt;
  once = omega arith;
  unanswered = λ e. refl;
  before = λ e. (refl, refl);
}
Promises-Quiet (and_then p q) s = Quiet-next (Promises-Quiet p s) q
