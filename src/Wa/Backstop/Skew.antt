-- ===== src/Wa/Backstop/Skew.antt =====
-- What a clock that is set back does to the send backstop (internal/wa/commands.go, clampSends).
use voolo_whatsapp_bridge.Common.{
  ℕ, suc, ◌+◌, ◌≤◌, ◌≡◌, refl, ap, ◌∙◌, true, List, [], ◌∷◌, length, keep, count_of, ltb, arith,
  All, All-keep, inl, inr, Bool-cases, if◌then◌else◌,
}
use voolo_whatsapp_bridge.Wa.Backstop.{
  window, lower, clamp_sends, raise, raise_from, within, backstop_allows,
}

All-lower : (now : ℕ) (sends : List ℕ) → All (λ t. t ≤ now) (lower now sends)
All-lower now [] = tt
All-lower now (t ∷ ts) = ground (arith, All-lower now ts)

All-raise_from :
    (now prev : ℕ) (ts : List ℕ)
    → prev ≤ now
    → All (λ t. t ≤ now) ts
    → All (λ t. t ≤ now) (raise_from prev ts)
unfolding raise_from
All-raise_from now prev [] h a = tt
All-raise_from now prev (t ∷ ts) h a = elim (Bool-cases (ltb t prev)) [
  | inl b ↦ rw b (h, All-raise_from now prev ts h a.1)
  | inr b ↦ rw b (a.0, All-raise_from now t ts a.0 a.1)
]

All-raise : (now : ℕ) (ts : List ℕ) → All (λ t. t ≤ now) ts → All (λ t. t ≤ now) (raise ts)
unfolding raise
All-raise now [] a = tt
All-raise now (t ∷ ts) a = (a.0, All-raise_from now t ts a.0 a.1)

All-clamp_sends : (sends : List ℕ) (now : ℕ) → All (λ t. t ≤ now) (clamp_sends sends now)
unfolding clamp_sends
All-clamp_sends sends now = elim (Bool-cases (ltb 0 (count_of (λ t. ltb now t) sends))) [
  | inl b ↦ rw b (All-raise now (lower now sends) (All-lower now sends))
  | inr b ↦ rw b (All-lower now sends)
]

length-lower : (now : ℕ) (ts : List ℕ) → length (lower now ts) ≡ length ts
length-lower now [] = refl
length-lower now (t ∷ ts) = ap suc (length-lower now ts)

length-raise_from : (prev : ℕ) (ts : List ℕ) → length (raise_from prev ts) ≡ length ts
unfolding raise_from
length-raise_from prev [] = refl
length-raise_from prev (t ∷ ts) = ap suc (length-raise_from (if ltb t prev then prev else t) ts)

length-raise : (ts : List ℕ) → length (raise ts) ≡ length ts
unfolding raise
length-raise [] = refl
length-raise (t ∷ ts) = ap suc (length-raise_from t ts)

-- Not falling.
abbrev pub Rising : ℕ → List ℕ → Type 0
Rising prev [] = Unit {0}
Rising prev (t ∷ ts) = (prev ≤ t) × Rising t ts

raise_from-Rising : (prev : ℕ) (ts : List ℕ) → Rising prev (raise_from prev ts)
unfolding raise_from
raise_from-Rising prev [] = tt
raise_from-Rising prev (t ∷ ts) =
    (ground arith, raise_from-Rising (if ltb t prev then prev else t) ts)

raise-Rising : (ts : List ℕ) → Rising 0 (raise ts)
unfolding raise
raise-Rising [] = tt
raise-Rising (t ∷ ts) = (omega arith, raise_from-Rising t ts)

lower_all-past : (now : ℕ) (ts : List ℕ) → count_of (λ t. ltb now t) ts ≡ 0 → lower now ts ≡ ts
lower_all-past now [] e = refl
lower_all-past now (t ∷ ts) e = ground (arith, lower_all-past now ts)

clamp_same :
    (sends : List ℕ) (now : ℕ) → count_of (λ t. ltb now t) sends ≡ 0 → clamp_sends sends now ≡ sends
unfolding clamp_sends
clamp_same sends now e = rw (e, clamp_sends) (lower_all-past now sends e)

clamp-Rising : (sends : List ℕ) (now : ℕ) → Rising 0 sends → Rising 0 (clamp_sends sends now)
unfolding clamp_sends
clamp-Rising sends now r = elim (Bool-cases (ltb 0 (count_of (λ t. ltb now t) sends))) [
  | inl b ↦ rw b (raise-Rising (lower now sends))
  | inr b ↦ rw b (rw (lower_all-past now sends (ground arith)) r)
]

length-clamp : (sends : List ℕ) (now : ℕ) → length (clamp_sends sends now) ≡ length sends
unfolding clamp_sends
length-clamp sends now = elim (Bool-cases (ltb 0 (count_of (λ t. ltb now t) sends))) [
  | inl b ↦ rw b (length-raise (lower now sends) ∙ length-lower now sends)
  | inr b ↦ rw b (length-lower now sends)
]

-- clampSends forgets no send, leaves none after `now` and keeps them in order; where none lay after
-- `now` it changes nothing.
pub clamp_sends-Rising :
    (sends : List ℕ) (now : ℕ)
    → Rising 0 sends
    → (length (clamp_sends sends now) ≡ length sends)
      × All (λ t. t ≤ now) (clamp_sends sends now)
      × Rising 0 (clamp_sends sends now)
      × (count_of (λ t. ltb now t) sends ≡ 0 → clamp_sends sends now ≡ sends)
clamp_sends-Rising sends now r = (
  length-clamp sends now,
  All-clamp_sends sends now,
  clamp-Rising sends now r,
  clamp_same sends now,
)

count_past : (now : ℕ) (ts : List ℕ) → All (λ t. t ≤ now) ts → count_of (λ t. ltb now t) ts ≡ 0
count_past now [] a = refl
count_past now (t ∷ ts) a = ground (arith, count_past now ts a.1)

pub clamp_past :
    (sends : List ℕ) (now : ℕ) → All (λ t. t ≤ now) sends → clamp_sends sends now ≡ sends
clamp_past sends now a = clamp_same sends now (count_past now sends a)

keep_none :
    (later now : ℕ) (ts : List ℕ)
    → now + window ≤ later
    → All (λ t. t ≤ now) ts
    → keep (within later) ts ≡ []
keep_none later now [] h a = refl
keep_none later now (t ∷ ts) h a = ground (arith, keep_none later now ts h a.1)

All-later : (c d : ℕ) (xs : List ℕ) → c ≤ d → All (λ t. t ≤ c) xs → All (λ t. t ≤ d) xs
All-later c d [] e h = tt
All-later c d (x ∷ xs) e h = (omega arith, All-later c d xs e h.1)

remembered :
    (sends : List ℕ) (now : ℕ)
    → (backstop_allows sends now).1 ≡ keep (within now) (clamp_sends sends now)
unfolding backstop_allows
remembered sends now = ground arith

allows_after :
    (times : List ℕ) (now later : ℕ)
    → now + window ≤ later
    → All (λ t. t ≤ now) times
    → (backstop_allows times later).0 ≡ true
unfolding backstop_allows
allows_after times now later h a = rw (
  clamp_past times later (All-later now later times (omega arith) a),
  keep_none later now times h a,
)

-- Whatever times are remembered, however far in the future the clock had been, a check made ten
-- minutes after the bridge first saw the clock's present time lets the send pass.
pub backstop_allows_recovers :
    (sends : List ℕ) (now later : ℕ)
    → now + window ≤ later
    → (backstop_allows (backstop_allows sends now).1 later).0 ≡ true
backstop_allows_recovers sends now later h = rw (remembered sends now) (
    allows_after (keep (within now) (clamp_sends sends now)) now later h
      (All-keep (λ t. t ≤ now) (within now) (clamp_sends sends now) (All-clamp_sends sends now)))
