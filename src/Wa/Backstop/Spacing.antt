-- ===== src/Wa/Backstop/Spacing.antt =====
-- Logs of times that keep a rate, and what the remembered times of a backstop (internal/wa/commands.go)
-- have to say of such a log.
use voolo_whatsapp_bridge.Common.{
  ℕ, ◌+◌, ◌≤◌, ◌<◌, ◌≡◌, refl, ◌∙◌, ◌⊎◌, inl, inr, Bool, true, false, List, [], ◌∷◌, ◌++◌, some,
  length, keep, count_of, length-keep, arith, All, All-keep, Bool-cases,
}
use voolo_whatsapp_bridge.Wa.Backstop.{second, window, last?, within, too_soon}

-- The newest of a log, if there is one, is at least a second before a time.
abbrev pub Gap : ℕ → List ℕ → Type 0
Gap t [] = Unit {0}
Gap t (h ∷ log) = h + second ≤ t

-- A log, newest first, in which each time comes at least a second after the one before it, and has
-- fewer than `cap` others in the ten minutes before it.
abbrev pub Spaced : ℕ → List ℕ → Type 0
Spaced cap [] = Unit {0}
Spaced cap (t ∷ log) = (count_of (within t) log < cap) × Gap t log × Spaced cap log

-- The remembered times say of the log all that a later check asks.
abbrev pub NewestKnown : ℕ → List ℕ → List ℕ → Type 0
NewestKnown clock times [] = Unit {0}
NewestKnown clock times (h ∷ log) = (last? times ≡ some h) ⊎ (h + window ≤ clock)

pub record Tracks (clock : ℕ) (times log : List ℕ) : Type 0 where
  pub counts : (t : ℕ) → clock ≤ t → count_of (within t) times ≡ count_of (within t) log
  pub newest : NewestKnown clock times log
  pub past : All (λ t. t ≤ clock) times

count-append :
    (p : ℕ → Bool) (xs ys : List ℕ) → count_of p (xs ++ ys) ≡ count_of p xs + count_of p ys
count-append p [] ys = omega arith
count-append p (x ∷ xs) ys = ground (arith, count-append p xs ys)

count_within_mono :
    (s t : ℕ) (xs : List ℕ) → s ≤ t → count_of (within t) xs ≤ count_of (within s) xs
count_within_mono s t [] h = omega arith
count_within_mono s t (x ∷ xs) h = ground (arith, count_within_mono s t xs h)

-- What a check forgets, no later check would have counted.
pub count-keep :
    (s t : ℕ) (xs : List ℕ)
    → s ≤ t
    → count_of (within t) (keep (within s) xs) ≡ count_of (within t) xs
count-keep s t [] h = refl
count-keep s t (x ∷ xs) h = ground (arith, count-keep s t xs h)

pub All-later : (c d : ℕ) (xs : List ℕ) → c ≤ d → All (λ t. t ≤ c) xs → All (λ t. t ≤ d) xs
All-later c d [] e h = tt
All-later c d (x ∷ xs) e h = (omega arith, All-later c d xs e h.1)

pub All-snoc :
    (c r : ℕ) (xs : List ℕ) → r ≤ c → All (λ t. t ≤ c) xs → All (λ t. t ≤ c) (xs ++ r ∷ [])
All-snoc c r [] e h = (e, tt)
All-snoc c r (x ∷ xs) e h = (h.0, All-snoc c r xs e h.1)

pub last?-snoc : (r : ℕ) (xs : List ℕ) → last? (xs ++ r ∷ []) ≡ some r
last?-snoc r [] = refl
last?-snoc r (x ∷ []) = refl
last?-snoc r (x ∷ y ∷ ys) = last?-snoc r (y ∷ ys)

last?-cons : (x h : ℕ) (ys : List ℕ) → last? ys ≡ some h → last? (x ∷ ys) ≡ some h
last?-cons x h [] e = cc
last?-cons x h (y ∷ ys) e = e

-- The last time survives a filter that it passes.
pub last?-keep :
    (p : ℕ → Bool) (h : ℕ) (xs : List ℕ)
    → last? xs ≡ some h
    → p h ≡ true
    → last? (keep p xs) ≡ some h
last?-keep p h [] e k = e
last?-keep p h (x ∷ []) e k = ground arith
last?-keep p h (x ∷ y ∷ ys) e k = elim (Bool-cases (p x)) [
  | inl b ↦ rw b (last?-cons x h (keep p (y ∷ ys)) (last?-keep p h (y ∷ ys) e k))
  | inr b ↦ rw b (last?-keep p h (y ∷ ys) e k)
]

module _ {clock : ℕ} {times log : List ℕ} (now : ℕ) (later : clock ≤ now)
    (tr : Tracks clock times log) where
  pub kept-Tracks : Tracks now (keep (within now) times) log
  kept-Tracks = record {
    counts = λ t h. count-keep now t times h ∙ tr.counts t (omega arith);
    newest = kept_newest log tr.newest;
    past = All-keep (λ t. t ≤ now) (within now) times (All-later clock now times later tr.past);
  }
    where
      kept_newest :
          (l : List ℕ) → NewestKnown clock times l → NewestKnown now (keep (within now) times) l
      kept_newest [] n = tt
      kept_newest (h ∷ l) (inl e) = elim (Bool-cases (within now h)) [
        | inl b ↦ inl (last?-keep (within now) h times e b)
        | inr b ↦ inr (ground arith)
      ]
      kept_newest (h ∷ l) (inr e) = inr (omega arith)

  -- A time that is let through extends a well-spaced log to one, and is then known.
  pub admitted-Spaced :
      (cap r : ℕ)
      → now ≤ r
      → length (keep (within now) times) < cap
      → too_soon now (last? (keep (within now) times)) ≡ false
      → Spaced cap log
      → Spaced cap (r ∷ log) × Tracks r (keep (within now) times ++ r ∷ []) (r ∷ log)
  admitted-Spaced cap r h few soon sp = ((fewer, gap log kept-Tracks.newest, sp), tracks)
    where
      fewer : count_of (within r) log < cap
      fewer = omega (
        arith,
        length-keep {0} (within now) times,
        tr.counts now later,
        count_within_mono now r log h,
      )

      gap : (l : List ℕ) → NewestKnown now (keep (within now) times) l → Gap r l
      gap [] n = tt
      gap (h' ∷ l) (inl e) = ground arith
      gap (h' ∷ l) (inr e) = omega arith

      tracks : Tracks r (keep (within now) times ++ r ∷ []) (r ∷ log)
      tracks = record {
        counts = λ t k. ground (
          arith,
          count-append (within t) (keep (within now) times) (r ∷ []),
          kept-Tracks.counts t (omega arith),
        );
        newest = inl (last?-snoc r (keep (within now) times));
        past = All-snoc r r _ (omega arith) (All-later now r _ h kept-Tracks.past);
      }
