-- ===== src/Store/Outbox/Bounds.antt =====
-- How large the outbox of internal/store/store.go grows, and that its ids stay distinct.
use Prim.Native.String.{String}
use text.Mathlib.TextEquality.{eq_iff}
use voolo_whatsapp_bridge.Common.{
  ℕ, ◌+◌, ◌≤◌, ◌≡◌, refl, ap, Bool, true, false, List, [], ◌∷◌, length, keep, drop, count_of,
  if◌then◌else◌, arith, by_test, length-keep, count_of-le, length-take,
}
use voolo_whatsapp_bridge.Common.Sort.{sort_stable, take-append-drop}
use voolo_whatsapp_bridge.Store.Tables.{Sent, Store, Result, ok, io_error}
use voolo_whatsapp_bridge.Store.Outbox.{
  outbox_keep, has_id, is_known, created_later, newest_rows, prune, new_row, reserve_outbox,
}
use voolo_whatsapp_bridge.Store.Outbox.Laws.{DistinctIds, count-sort, count-append, known-count}

count-keep-le : (p q : Sent → Bool) (rows : List Sent) → count_of p (keep q rows) ≤ count_of p rows
count-keep-le p q [] = omega arith
count-keep-le p q (r ∷ rs) = ground (arith, count-keep-le p q rs)

prune-DistinctIds : (rows : List Sent) → DistinctIds rows → DistinctIds (prune rows)
unfolding prune
prune-DistinctIds rows d id =
    omega
      (arith, d id, count-keep-le (has_id id) (λ r. is_known r.outbox_id (newest_rows rows)) rows)

new-DistinctIds :
    (id : String) (now : ℕ) (rows : List Sent)
    → is_known id rows ≡ false
    → DistinctIds rows
    → DistinctIds (new_row id now ∷ rows)
new-DistinctIds id now rows h d j = ground (arith, d j, eq_iff id j, known-count id rows)

-- Rows whose ids are in no row of `kept` are not kept.
count-disjoint :
    (kept rows : List Sent)
    → ((id : String) → count_of (has_id id) kept + count_of (has_id id) rows ≤ 1)
    → count_of (λ r. is_known r.outbox_id kept) rows ≡ 0
count-disjoint kept [] d = refl
count-disjoint kept (r ∷ rs) d = ground (
  arith,
  d r.outbox_id,
  eq_iff r.outbox_id r.outbox_id,
  known-count r.outbox_id kept,
  count-disjoint kept rs (λ id. ground (arith, d id)),
)

length-prune : (rows : List Sent) → DistinctIds rows → length (prune rows) ≤ outbox_keep
unfolding prune
length-prune rows d =
    let kept = newest_rows rows in
    let gone = drop outbox_keep (sort_stable created_later rows) in
    let p = λ (r : Sent). is_known r.outbox_id kept in
    omega (
      arith,
      length-keep {0} p rows,
      count-sort p rows,
      ap (count_of p) (take-append-drop {0} outbox_keep (sort_stable created_later rows)),
      count-append p kept gone,
      count_of-le {0} p kept,
      length-take {0} outbox_keep (sort_stable created_later rows),
      count-disjoint kept gone (λ id. omega (
        arith,
        d id,
        count-append (has_id id) kept gone,
        ap (count_of (has_id id))
            (take-append-drop {0} outbox_keep (sort_stable created_later rows)),
        count-sort (has_id id) rows,
      )),
    )

-- What a call of ReserveOutbox may come to.
abbrev Bounded : Bool → String → Store → Result Bool × Store → Type 0
Bounded insert_fails id s (answer, s') =
    DistinctIds s'.sent
    × (answer ≡ ok false → (is_known id s.sent ≡ false) × (length s'.sent ≤ outbox_keep))
    × (answer ≡ ok true → is_known id s.sent ≡ true)
    × (is_known id s.sent ≡ true → s' ≡ s)
    × (is_known id s.sent ≡ true → s.closed ≡ false → insert_fails ≡ false → answer ≡ ok true)

reserved-Bounded :
    (delete_fails : Bool) (id : String) (now : ℕ) (s : Store)
    → DistinctIds s.sent
    → is_known id s.sent ≡ false
    → Bounded false id s (
        if delete_fails
        then (io_error, record s { sent = new_row id now ∷ s.sent })
        else (ok false, record s { sent = prune (new_row id now ∷ s.sent) }))
reserved-Bounded true id now s d e =
    (new-DistinctIds id now s.sent e d, (λ h. cc), (λ h. cc), (λ h. cc), λ h o i. cc)
reserved-Bounded false id now s d e =
    let distinct = new-DistinctIds id now s.sent e d in
    (
      prune-DistinctIds (new_row id now ∷ s.sent) distinct,
      (λ h. (e, length-prune (new_row id now ∷ s.sent) distinct)),
      (λ h. cc),
      (λ h. cc),
      λ h o i. cc,
    )

-- ReserveOutbox keeps the ids distinct. It takes an id only if it is not known, and then the table has
-- at most 1,000 rows. A known id changes nothing, and is answered as a duplicate unless the store is
-- closed or the INSERT fails; no other id is answered so.
pub reserve_outbox_bounds :
    (insert_fails delete_fails : Bool) (id : String) (now : ℕ) (s : Store)
    → DistinctIds s.sent
    → let (answer, s') = reserve_outbox insert_fails delete_fails id now s in
      DistinctIds s'.sent
      × (answer ≡ ok false → (is_known id s.sent ≡ false) × (length s'.sent ≤ outbox_keep))
      × (answer ≡ ok true → is_known id s.sent ≡ true)
      × (is_known id s.sent ≡ true → s' ≡ s)
      × (is_known id s.sent ≡ true → s.closed ≡ false → insert_fails ≡ false → answer ≡ ok true)
unfolding reserve_outbox
reserve_outbox_bounds true delete_fails id now s d =
    by_test (Bounded true id s) s.closed (λ c. (d, (λ h. cc), (λ h. cc), (λ k. refl), λ k o i. cc))
      (λ c. (d, (λ h. cc), (λ h. cc), (λ k. refl), λ k o i. cc))
reserve_outbox_bounds false delete_fails id now s d =
    by_test (Bounded false id s) s.closed (λ c. (d, (λ h. cc), (λ h. cc), (λ k. refl), λ k o i. cc))
      (λ c.
        by_test (Bounded false id s) (is_known id s.sent)
          (λ e. (d, (λ h. cc), (λ h. e), (λ k. refl), λ k o i. refl))
          (λ e. reserved-Bounded delete_fails id now s d e))
