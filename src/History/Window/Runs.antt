-- ===== src/History/Window/Runs.antt =====
-- What holds of an acknowledgement window (internal/history/history.go) over every sequence of calls.
use voolo_whatsapp_bridge.Common.{
  ℕ, zero, suc, ◌==◌, ◌+◌, ◌≤◌, ◌<◌, ◌≡◌, refl, ◌⊎◌, inl, inr, Bool, false, not, List, [], ◌∷◌,
  ◌++◌, length, keep, count_of, leb, arith, All, ap, ◌∙◌,
}
use voolo_whatsapp_bridge.History.Window.{
  Window, new_window, granted, waits, acquire, ack, Call, acquires, acks, resets, step, run,
  outstanding_count,
}

-- Strictly falling, and below a bound.
abbrev pub Below : ℕ → List ℕ → Type 0
Below n [] = Unit {0}
Below n (x ∷ xs) = (x < n) × Below x xs

Below-mono : {m n : ℕ} (xs : List ℕ) → m ≤ n → Below m xs → Below n xs
Below-mono [] h b = tt
Below-mono (x ∷ xs) h b = (omega arith, b.1)

keep-Below : (p : ℕ → Bool) (n : ℕ) (xs : List ℕ) → Below n xs → Below n (keep p xs)
keep-Below p n [] b = tt
keep-Below p n (x ∷ xs) b =
    ground (arith, keep-Below p x xs b.1, Below-mono {m = x} {n = n} (keep p xs))

length-keep-le : (p : ℕ → Bool) (xs : List ℕ) → length (keep p xs) ≤ length xs
length-keep-le p [] = omega arith
length-keep-le p (x ∷ xs) = ground (arith, length-keep-le p xs)

-- No seq stands twice or is still to come, and the window is never over its size.
pub record IsValid (w : Window) : Type 0 where
  pub fresh : Below w.next w.outstanding
  pub bounded : length w.outstanding ≤ w.size

new_window-IsValid : (size : ℕ) → IsValid (new_window size)
unfolding new_window
new_window-IsValid size = record { fresh = tt; bounded = omega arith }

step-IsValid : (w : Window) (c : Call) → IsValid w → IsValid (step w c)
unfolding step
step-IsValid w (acquires stop) v = ground arith
step-IsValid w (acks seq) v = record {
  fresh = keep-Below (λ s. not (leb s seq)) w.next w.outstanding v.fresh;
  bounded = omega (arith, length-keep-le (λ s. not (leb s seq)) w.outstanding, v.bounded);
}
step-IsValid w resets v = record { fresh = tt; bounded = omega arith }

run-IsValid : (w : Window) (cs : List Call) → IsValid w → IsValid (run w cs)
unfolding run
run-IsValid w [] v = v
run-IsValid w (c ∷ cs) v = run-IsValid (step w c) cs (step-IsValid w c v)

size-step : (w : Window) (c : Call) → (step w c).size ≡ w.size
unfolding step
size-step w (acquires stop) = ground arith
size-step w (acks seq) = refl
size-step w resets = refl

pub size-run : (w : Window) (cs : List Call) → (run w cs).size ≡ w.size
unfolding run
size-run w [] = refl
size-run w (c ∷ cs) = omega (arith, size-run (step w c) cs, size-step w c)

size-new_window : (size : ℕ) → (new_window size).size ≡ size
unfolding new_window
size-new_window size = refl

-- After any calls on a new window at most `size` batches are unacknowledged, their seqs are
-- pairwise different, and every one of them is below the next seq to be handed out.
pub run-new_window-bounded :
    (size : ℕ) (cs : List Call)
    → (outstanding_count (run (new_window size) cs) ≤ size)
      × Below (run (new_window size) cs).next (run (new_window size) cs).outstanding
unfolding outstanding_count
run-new_window-bounded size cs =
    let v : IsValid (run (new_window size) cs) =
      run-IsValid (new_window size) cs (new_window-IsValid size) in
    (omega (arith, v.bounded, size-run (new_window size) cs, size-new_window size), v.fresh)

-- The seq that a call hands out, if it does.
abbrev grants : Window → Call → List ℕ
grants w (acquires stop) = elim (acquire stop w).0 [ granted s ↦ s ∷ [] | _ ↦ [] ]
grants w _ = []

-- The seqs that the calls hand out, in order.
pub handed_out : Window → List Call → List ℕ
handed_out w [] = []
handed_out w (c ∷ cs) = grants w c ++ handed_out (step w c) cs

-- The n numbers from s on.
pub count_up : ℕ → ℕ → List ℕ
count_up s zero = []
count_up s (suc n) = s ∷ count_up (suc s) n

grants-next :
    (w : Window) (c : Call)
    → ((grants w c ≡ []) × ((step w c).next ≡ w.next))
      ⊎ ((grants w c ≡ w.next ∷ []) × ((step w c).next ≡ suc w.next))
unfolding step
grants-next w (acquires stop) = ground arith
grants-next w (acks seq) = inl (refl, refl)
grants-next w resets = inl (refl, refl)

-- Whatever other calls come between, acknowledgements and resets included, the seqs handed out are
-- consecutive: there is no gap among them and none is ever used again.
pub handed_out-count_up :
    (w : Window) (cs : List Call) → handed_out w cs ≡ count_up w.next (length (handed_out w cs))
unfolding handed_out count_up
handed_out-count_up w [] = refl
handed_out-count_up w (c ∷ cs) =
    let rest : List ℕ = handed_out (step w c) cs in
    let ih = handed_out-count_up (step w c) cs in
    elim (grants-next w c) [
      | inl (e, n) ↦ rw e (ih ∙ ap (λ s. count_up s (length rest)) n)
      | inr (e, n) ↦ rw e (ap (λ l. w.next ∷ l) (ih ∙ ap (λ s. count_up s (length rest)) n))
    ]

module _ (seq : ℕ) where
  released_left :
      (xs : List ℕ)
      → count_of (λ s. leb s seq) xs + length (keep (λ s. not (leb s seq)) xs) ≡ length xs
  released_left [] = omega arith
  released_left (x ∷ xs) = ground (arith, released_left xs)

  left-All : (xs : List ℕ) → All (λ s. seq < s) (keep (λ s. not (leb s seq)) xs)
  left-All [] = tt
  left-All (x ∷ xs) = ground (arith, left-All xs)

  left-count :
      (s : ℕ) (xs : List ℕ)
      → seq < s
      → count_of (λ t. t == s) (keep (λ t. not (leb t seq)) xs) ≡ count_of (λ t. t == s) xs
  left-count s [] h = refl
  left-count s (x ∷ xs) h = ground (arith, left-count s xs h)

-- Ack releases the batches up to its seq and no other, and answers how many it released.
pub ack_exact :
    (seq : ℕ) (w : Window)
    → ((ack seq w).0 + length (ack seq w).1.outstanding ≡ length w.outstanding)
      × All (λ s. seq < s) (ack seq w).1.outstanding
      × ((s : ℕ)
          → seq < s
          → count_of (λ t. t == s) (ack seq w).1.outstanding ≡ count_of (λ t. t == s) w.outstanding)
unfolding ack
ack_exact seq w = (
  released_left seq w.outstanding,
  left-All seq w.outstanding,
  λ s h. left-count seq s w.outstanding h,
)

-- A call wakes the waiters on the channel, or it takes nothing out of the window.
step_wakes :
    (w : Window) (c : Call)
    → (w.changed < (step w c).changed)
      ⊎ (((step w c).changed ≡ w.changed) × (length w.outstanding ≤ length (step w c).outstanding))
unfolding step
step_wakes w (acquires stop) = inr (ground arith)
step_wakes w (acks seq) = ground (arith, released_left seq w.outstanding)
step_wakes w resets = inl (omega arith)

run_wakes :
    (w : Window) (cs : List Call)
    → (w.changed < (run w cs).changed)
      ⊎ (((run w cs).changed ≡ w.changed) × (length w.outstanding ≤ length (run w cs).outstanding))
unfolding run
run_wakes w [] = inr (refl, omega arith)
run_wakes w (c ∷ cs) = ground (arith, step_wakes w c, run_wakes (step w c) cs)

-- A waiter is never left asleep: if a round of Acquire found the window full, and after some calls
-- the window has room, then the channel that it waits on has been closed.
pub acquire_wakes :
    (w : Window) (k : ℕ) (cs : List Call)
    → acquire false w ≡ (waits k, w)
    → length (run w cs).outstanding < (run w cs).size
    → k < (run w cs).changed
unfolding acquire
acquire_wakes w k cs e h = ground (arith, run_wakes w cs, size-run w cs)
