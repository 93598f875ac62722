-- ===== src/Store/Outbox/Laws.antt =====
-- What the outbox of internal/store/store.go remembers.
use Prim.Native.String.{String}
use text.Mathlib.TextEquality.{eq_iff}
use voolo_whatsapp_bridge.Common.{
  ℕ, zero, suc, ◌+◌, ◌≤◌, ◌≡◌, refl, sym, ap, ◌∙◌, inl, inr, Bool, true, false, List, [], ◌∷◌, ◌++◌,
  keep, take, count_of, ltb, arith, Bool-cases, All,
}
use voolo_whatsapp_bridge.Common.Sort.{sort_stable, insert_stable, IsSorted, sort_stable-IsSorted}
use voolo_whatsapp_bridge.Store.Tables.{Sent, Store, ok}
use voolo_whatsapp_bridge.Store.Outbox.{
  outbox_keep, has_id, is_known, created_later, newest_rows, prune, new_row, reserve_outbox,
  outbox_known,
}

-- No id stands in two rows.
abbrev pub DistinctIds : List Sent → Type 0
DistinctIds rows = (id : String) → count_of (has_id id) rows ≤ 1

-- How many rows were created after a time.
abbrev pub newer_than : ℕ → List Sent → ℕ
newer_than t = count_of (λ r. ltb t r.created_at)

module _ (p : Sent → Bool) where
  count-insert :
      (x : Sent) (xs : List Sent)
      → count_of p (insert_stable created_later x xs) ≡ count_of p (x ∷ xs)
  unfolding insert_stable
  count-insert x [] = refl
  count-insert x (y ∷ ys) = ground (arith, count-insert x ys)

  pub count-sort : (xs : List Sent) → count_of p (sort_stable created_later xs) ≡ count_of p xs
  unfolding sort_stable
  count-sort [] = refl
  count-sort (x ∷ xs) = ground (arith, count-insert x (sort_stable created_later xs), count-sort xs)

  pub count-append : (xs ys : List Sent) → count_of p (xs ++ ys) ≡ count_of p xs + count_of p ys
  count-append [] ys = omega arith
  count-append (x ∷ xs) ys = ground (arith, count-append xs ys)

pub known-count :
    (id : String) (rows : List Sent) → is_known id rows ≡ ltb 0 (count_of (has_id id) rows)
unfolding is_known
known-count id [] = refl
known-count id (r ∷ rs) = ground (arith, known-count id rs)

known-take :
    (id : String) (n : ℕ) (rows : List Sent)
    → is_known id rows ≡ false
    → is_known id (take n rows) ≡ false
unfolding is_known
known-take id zero rows h = refl
known-take id (suc n) [] h = refl
known-take id (suc n) (r ∷ rs) h = ground (arith, known-take id n rs)

none_newer :
    (x y : Sent) (ys : List Sent)
    → ltb x.created_at y.created_at ≡ false
    → All (λ z. created_later z y ≡ false) ys
    → newer_than x.created_at ys ≡ 0
none_newer x y [] e a = refl
none_newer x y (z ∷ ys) e a = ground (arith, none_newer x y ys e a.1)

self_known : (x : Sent) → has_id x.outbox_id x ≡ true
self_known x = ground (arith, eq_iff x.outbox_id x.outbox_id)

sorted_cons :
    (r : Sent) (rows : List Sent)
    → sort_stable created_later (r ∷ rows)
      ≡ insert_stable created_later r (sort_stable created_later rows)
unfolding sort_stable
sorted_cons r rows = refl

-- A row is among the first n of the sorted rows exactly if fewer than n are newer.
insert_known :
    (n : ℕ) (x : Sent) (xs : List Sent)
    → IsSorted created_later xs
    → is_known x.outbox_id xs ≡ false
    → is_known x.outbox_id (take n (insert_stable created_later x xs))
      ≡ ltb (newer_than x.created_at xs) n
unfolding insert_stable is_known
insert_known zero x [] o h = refl
insert_known zero x (y ∷ ys) o h = ground arith
insert_known (suc n) x [] o h = ground (arith, self_known x)
insert_known (suc n) x (y ∷ ys) o h = elim (Bool-cases (ltb x.created_at y.created_at)) [
  | inl e ↦ rw e (ground (arith, insert_known n x ys o.1))
  | inr e ↦ rw e (ground (arith, self_known x, none_newer x y ys e o.0))
]

known-sort :
    (id : String) (rows : List Sent)
    → is_known id (sort_stable created_later rows) ≡ is_known id rows
known-sort id rows =
    known-count id (sort_stable created_later rows)
    ∙ ap (ltb 0) (count-sort (has_id id) rows)
    ∙ sym (known-count id rows)

known-keep :
    (id : String) (p : Sent → Bool) (rows : List Sent)
    → is_known id rows ≡ false
    → is_known id (keep p rows) ≡ false
unfolding is_known
known-keep id p [] h = refl
known-keep id p (r ∷ rs) h = ground (arith, known-keep id p rs)

created_later-IsSorted :
    (rows : List Sent) → IsSorted created_later (sort_stable created_later rows)
created_later-IsSorted =
    sort_stable-IsSorted created_later (λ x y h. ground arith) (λ x y z h k. ground arith)

known-head-keep :
    (r : Sent) (p : Sent → Bool) (rows : List Sent)
    → is_known r.outbox_id rows ≡ false
    → is_known r.outbox_id (keep p (r ∷ rows)) ≡ p r
unfolding is_known
known-head-keep r p rows h = ground (arith, self_known r, known-keep r.outbox_id p rows h)

-- Whether a new row survives the pruning.
known-prune :
    (r : Sent) (rows : List Sent)
    → is_known r.outbox_id rows ≡ false
    → is_known r.outbox_id (prune (r ∷ rows)) ≡ ltb (newer_than r.created_at rows) outbox_keep
unfolding prune
known-prune r rows h =
    known-head-keep r (λ q. is_known q.outbox_id (newest_rows (r ∷ rows))) rows h
    ∙ ap (λ l. is_known r.outbox_id (take outbox_keep l)) (sorted_cons r rows)
    ∙ insert_known outbox_keep r (sort_stable created_later rows) (created_later-IsSorted rows)
        (known-sort r.outbox_id rows ∙ h)
    ∙ ap (λ n. ltb n outbox_keep) (count-sort (λ q. ltb r.created_at q.created_at) rows)

-- An id that ReserveOutbox took, and did not find to be a duplicate, is known after it exactly if
-- fewer than 1,000 remembered ids were created after it: with the clock set far back and the table
-- full, the id is forgotten at once.
pub reserve_outbox_known :
    (id : String) (now : ℕ) (s : Store)
    → (reserve_outbox false false id now s).0 ≡ ok false
    → (outbox_known false id (reserve_outbox false false id now s).1).0
      ≡ ok (ltb (newer_than now s.sent) outbox_keep)
unfolding reserve_outbox outbox_known
reserve_outbox_known id now s e = ground (arith, known-prune (new_row id now) s.sent)
