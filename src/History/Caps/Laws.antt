-- ===== src/History/Caps/Laws.antt =====
-- What Filter (internal/history/history.go, type Caps) promises.
use Prim.Native.String.{String}
use mathlib.Core.List.{Perm}
use mathlib.Core.List.Perm
use text.Mathlib.Text.{◌==◌ as str_eq}
use text.Mathlib.TextEquality.{eq_iff}
use voolo_whatsapp_bridge.Common.{
  ℕ, zero, suc, ◌+◌, ◌-◌, ◌≤◌, ◌≡◌, refl, ap, sym, inl, inr, false, List, [], ◌∷◌, ◌++◌, length,
  length-take, arith, All, Bool-cases, if◌then◌else◌, ltb, leb, take, drop, subst, length-keep,
  count_of-le,
}
use voolo_whatsapp_bridge.Common.Sort.{
  sort_stable, sort_stable-perm, sort_stable-IsSorted, IsSorted, IsSorted-separated,
  take-append-drop, All-sort_stable, All-map, length-sort_stable,
}
use voolo_whatsapp_bridge.Protocol.Events.{Message}
use voolo_whatsapp_bridge.History.Caps.{Caps, update, cutoff, newer, older, recent, room, filter}

newer-IsSorted : (xs : List Message) → IsSorted newer (sort_stable newer xs)
newer-IsSorted = sort_stable-IsSorted newer (λ x y h. ground arith) (λ x y z h k. ground arith)

older-IsSorted : (xs : List Message) → IsSorted older (sort_stable older xs)
older-IsSorted = sort_stable-IsSorted older (λ x y h. ground arith) (λ x y z h k. ground arith)

take_all {ℓ} : {A : Type ℓ} (n : ℕ) (xs : List A) → length xs ≤ n → take n xs ≡ xs
take_all zero [] h = refl
take_all zero (x ∷ xs) h = absurd (omega arith)
take_all (suc n) [] h = refl
take_all (suc n) (x ∷ xs) h = ap (λ l. x ∷ l) (take_all n xs (omega arith))

-- The truncation of the source, whose test only spares a slice expression.
few : (n : ℕ) (xs : List Message) → (if ltb n (length xs) then take n xs else xs) ≡ take n xs
few n xs = elim (Bool-cases (ltb n (length xs))) [
  | inl e ↦ rw e
  | inr e ↦ rw e (sym (take_all n xs (ground arith)))
]

-- The newest messages that the limits leave, newest first, and the rest.
abbrev newest : Caps → ℕ → String → List Message → List Message
newest c now chat msgs = take (room c chat) (sort_stable newer (recent c now msgs))

abbrev rest : Caps → ℕ → String → List Message → List Message
rest c now chat msgs = drop (room c chat) (sort_stable newer (recent c now msgs))

kept-filter :
    (c : Caps) (now : ℕ) (chat : String) (msgs : List Message)
    → (filter c now chat msgs).0 ≡ sort_stable older (newest c now chat msgs)
unfolding filter
kept-filter c now chat msgs =
    ap (sort_stable older) (few (room c chat) (sort_stable newer (recent c now msgs)))

length-kept :
    (c : Caps) (now : ℕ) (chat : String) (msgs : List Message)
    → length (filter c now chat msgs).0 ≤ room c chat
length-kept c now chat msgs = rw (kept-filter c now chat msgs) (
    omega (
      arith,
      length-sort_stable {0} older (newest c now chat msgs),
      length-take {0} (room c chat) (sort_stable newer (recent c now msgs)),
    ))

length-recent-le :
    (c : Caps) (now : ℕ) (msgs : List Message) → length (recent c now msgs) ≤ length msgs
length-recent-le c now msgs = omega (
  arith,
  length-keep {0} (λ (m : Message). leb (cutoff c now) m.ts) msgs,
  count_of-le {0} (λ (m : Message). leb (cutoff c now) m.ts) msgs,
)

-- Every message is either in the answer or counted as dropped.
pub filter_accounts :
    (c : Caps) (now : ℕ) (chat : String) (msgs : List Message)
    → length (filter c now chat msgs).0 + (filter c now chat msgs).1 ≡ length msgs
unfolding filter
filter_accounts c now chat msgs = rw (few (room c chat) (sort_stable newer (recent c now msgs))) (
    ground (
      arith,
      length-sort_stable older (newest c now chat msgs),
      length-take (room c chat) (sort_stable newer (recent c now msgs)),
      length-sort_stable newer (recent c now msgs),
      length-recent-le c now msgs,
    ))

-- The answer is in ascending order of time.
pub filter-IsSorted :
    (c : Caps) (now : ℕ) (chat : String) (msgs : List Message)
    → IsSorted older (filter c now chat msgs).0
filter-IsSorted c now chat msgs =
    rw (kept-filter c now chat msgs) (older-IsSorted (newest c now chat msgs))

-- The answer together with some rest is exactly the messages that are recent enough, and no message
-- of the rest is newer than one of the answer: what the cap on one chat drops is the oldest.
pub filter_keeps_newest :
    (c : Caps) (now : ℕ) (chat : String) (msgs : List Message)
    → (old : List Message) × Perm ((filter c now chat msgs).0 ++ old) (recent c now msgs)
      × All (λ o. All (λ m. o.ts ≤ m.ts) (filter c now chat msgs).0) old
filter_keeps_newest c now chat msgs = rw (kept-filter c now chat msgs) (
  rest c now chat msgs,
  perm,
  All-map (λ o h. All-sort_stable older _ _ (All-map (λ m e. ground arith) _ h)) _ split,
)
  where
    sorted : List Message
    sorted = sort_stable newer (recent c now msgs)

    split : All (λ r. All (λ m. newer r m ≡ false) (newest c now chat msgs)) (rest c now chat msgs)
    split = IsSorted-separated newer (room c chat) sorted (newer-IsSorted (recent c now msgs))

    perm :
        Perm
          (sort_stable older (newest c now chat msgs) ++ rest c now chat msgs)
          (recent c now msgs)
    perm =
        Perm.trans
          (Perm.append (sort_stable-perm older (newest c now chat msgs))
            (Perm.refl (rest c now chat msgs)))
          (subst (λ l. Perm l (recent c now msgs)) (sym (take-append-drop (room c chat) sorted))
            (sort_stable-perm newer (recent c now msgs)))

-- The calls of one process run: a reading of the clock, a chat and the chunk's messages of it.
abbrev pub Chunk : Type 0
Chunk = ℕ × String × List Message

-- How many messages of a chat the calls let through.
pub passed : Caps → List Chunk → String → ℕ
passed c [] j = 0
passed c ((now, chat, msgs) ∷ more) j =
    (if str_eq j chat then length (filter c now chat msgs).0 else 0)
    + passed (filter c now chat msgs).2 more j

counts-filter :
    (c : Caps) (now : ℕ) (chat : String) (msgs : List Message) (j : String)
    → ((filter c now chat msgs).2.counts j
        ≡ (if str_eq j chat then c.counts j + length (filter c now chat msgs).0 else c.counts j))
      × ((filter c now chat msgs).2.max_per_chat ≡ c.max_per_chat)
unfolding filter update
counts-filter c now chat msgs j = ground (
  arith,
  eq_iff j chat,
  few (room c chat) (sort_stable newer (recent c now msgs)),
  length-sort_stable older (
      if ltb (room c chat) (length (sort_stable newer (recent c now msgs)))
      then take (room c chat) (sort_stable newer (recent c now msgs))
      else sort_stable newer (recent c now msgs)),
)

passed-le :
    (c : Caps) (chunks : List Chunk) (j : String) → passed c chunks j ≤ c.max_per_chat - c.counts j
unfolding passed
passed-le c [] j = omega arith
passed-le c ((now, chat, msgs) ∷ more) j = ground (
  arith,
  counts-filter c now chat msgs j,
  length-kept c now chat msgs,
  passed-le (filter c now chat msgs).2 more j,
  eq_iff j chat,
)

-- However the history is cut into chunks, all the calls of a run together let through at most
-- MaxPerChat messages of any chat.
pub passed-le-max_per_chat :
    (days max_per_chat : ℕ) (chunks : List Chunk) (j : String)
    → passed (record { days = days; max_per_chat = max_per_chat; counts = λ _. 0 }) chunks j
      ≤ max_per_chat
passed-le-max_per_chat days max_per_chat chunks j = omega (
  arith,
  passed-le (record { days = days; max_per_chat = max_per_chat; counts = λ _. 0 }) chunks j,
)
