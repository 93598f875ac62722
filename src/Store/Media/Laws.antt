-- ===== src/Store/Media/Laws.antt =====
-- What the media table of internal/store/store.go answers.
use Prim.Native.String.{String}
use text.Mathlib.Text.{◌==◌ as str_eq}
use text.Mathlib.TextEquality.{eq_iff}
use voolo_whatsapp_bridge.Common.{
  ℕ, ◌-◌, ◌≡◌, ◌≢◌, refl, ap, ◌∙◌, ◌⊎◌, inl, inr, Bool, true, false, List, [], ◌∷◌, Option, none,
  some, length, take, count_of, length-keep, leb, if◌then◌else◌, arith, by_test, by_test_false,
}
use voolo_whatsapp_bridge.Store.Tables.{
  MediaDesc, Store, Result, ok, io_error, use_store_cases, use_store_open,
}
use voolo_whatsapp_bridge.Store.Media.{
  has_key, upsert, put_rows, put_open, put_media, row_of, only_one, same_id, get_open, get_media,
}

-- A descriptor is found under its own key, and the rows of the other keys are as before.
row_of-upsert :
    (chat id : String) (d : MediaDesc) (rows : List MediaDesc)
    → row_of chat id (upsert d rows) ≡ (if has_key chat id d then some d else row_of chat id rows)
unfolding row_of upsert
row_of-upsert chat id d [] = refl
row_of-upsert chat id d (r ∷ rs) = ground (
  arith,
  eq_iff d.chat_jid chat,
  eq_iff d.message_id id,
  eq_iff r.chat_jid chat,
  eq_iff r.message_id id,
  eq_iff r.chat_jid d.chat_jid,
  eq_iff r.message_id d.message_id,
  row_of-upsert chat id d rs,
)

-- The last of some descriptors with a key.
abbrev pub last_of : String → String → List MediaDesc → Option MediaDesc → Option MediaDesc
last_of chat id [] found = found
last_of chat id (d ∷ ds) found = last_of chat id ds (if has_key chat id d then some d else found)

row_of-put_rows :
    (chat id : String) (ds rows rows' : List MediaDesc)
    → put_rows none ds rows ≡ some rows'
    → row_of chat id rows' ≡ last_of chat id ds (row_of chat id rows)
unfolding put_rows
row_of-put_rows chat id [] rows rows' e = ground arith
row_of-put_rows chat id (d ∷ ds) rows rows' e =
    row_of-put_rows chat id ds (upsert d rows) rows' e
    ∙ ap (last_of chat id ds) (row_of-upsert chat id d rows)

put_rows-some :
    (ds rows : List MediaDesc) → (rows' : List MediaDesc) × (put_rows none ds rows ≡ some rows')
unfolding put_rows
put_rows-some [] rows = (rows, refl)
put_rows-some (d ∷ ds) rows = put_rows-some ds (upsert d rows)

put_rows-any :
    (fail_at : Option ℕ) (ds rows rows' : List MediaDesc)
    → put_rows fail_at ds rows ≡ some rows'
    → put_rows none ds rows ≡ some rows'
unfolding put_rows
put_rows-any none ds rows rows' e = e
put_rows-any (some n) [] rows rows' e = e
put_rows-any (some n) (d ∷ ds) rows rows' e =
    ground (arith, put_rows-any (some (n - 1)) ds (upsert d rows) rows')

-- What a call of PutMedia may come to.
abbrev AllOrNothing : List MediaDesc → Store → Result (Unit {0}) × Store → Type 0
AllOrNothing ds s (answer, s') =
    ((answer ≡ ok tt) × (put_rows none ds s.media ≡ some s'.media)) ⊎ ((answer ≢ ok tt) × (s' ≡ s))

commit-AllOrNothing :
    (commit_fails : Bool) (ds : List MediaDesc) (s : Store) (o : Option (List MediaDesc))
    → ((rows : List MediaDesc) → o ≡ some rows → put_rows none ds s.media ≡ some rows)
    → AllOrNothing ds s (elim o [
      | none ↦ (io_error, s)
      | some rows ↦ if commit_fails then (io_error, s) else (ok tt, record s { media = rows })
    ])
commit-AllOrNothing commit_fails ds s none h = inr ((λ e. cc), refl)
commit-AllOrNothing true ds s (some rows) h = inr ((λ e. cc), refl)
commit-AllOrNothing false ds s (some rows) h = inl (refl, h rows refl)

put_open-AllOrNothing :
    (begin_fails : Bool) (fail_at : Option ℕ) (commit_fails : Bool) (ds : List MediaDesc)
    (s : Store)
    → AllOrNothing ds s (put_open begin_fails fail_at commit_fails ds s)
unfolding put_rows
put_open-AllOrNothing begin_fails fail_at commit_fails [] s = inl (refl, refl)
put_open-AllOrNothing begin_fails fail_at commit_fails (d ∷ ds) s =
    by_test (AllOrNothing (d ∷ ds) s) (leb (length (d ∷ ds)) 0) (λ e. ground arith)
      (λ e.
        by_test (AllOrNothing (d ∷ ds) s) begin_fails (λ b. inr ((λ e'. cc), refl))
          (λ b.
            commit-AllOrNothing commit_fails (d ∷ ds) s (put_rows fail_at (d ∷ ds) s.media)
              (λ rows h. put_rows-any fail_at (d ∷ ds) s.media rows h)))

-- Whatever fails in it, PutMedia stores all the descriptors and succeeds, or reports an error and
-- leaves the store as it was.
pub put_media_atomic :
    (begin_fails : Bool) (fail_at : Option ℕ) (commit_fails : Bool) (ds : List MediaDesc)
    (s : Store)
    → let (answer, s') = put_media begin_fails fail_at commit_fails ds s in
      ((answer ≡ ok tt) × (put_rows none ds s.media ≡ some s'.media))
      ⊎ ((answer ≢ ok tt) × (s' ≡ s))
unfolding put_media
put_media_atomic begin_fails fail_at commit_fails ds s =
    use_store_cases (AllOrNothing ds s) (put_open begin_fails fail_at commit_fails ds) s
      (inr ((λ e. cc), refl)) (put_open-AllOrNothing begin_fails fail_at commit_fails ds s)

-- How PutMedia ends by what its statements made of the rows.
abbrev ending : Store → Option (List MediaDesc) → Result (Unit {0}) × Store
ending s none = (io_error, s)
ending s (some rows) = (ok tt, record s { media = rows })

put_open-stored :
    (ds : List MediaDesc) (s : Store) (rows : List MediaDesc)
    → put_rows none ds s.media ≡ some rows
    → put_open false none false ds s ≡ (ok tt, record s { media = rows })
unfolding put_rows
put_open-stored [] s rows h = ap (ending s) h
put_open-stored (d ∷ ds) s rows h =
    by_test_false (leb (length (d ∷ ds)) 0) _ _ (ground arith) ∙ ap (ending s) h

get_open-found :
    (chat id : String) (s : Store) (d : MediaDesc)
    → row_of chat id s.media ≡ some d
    → (get_open false false chat id s).0 ≡ ok (some d)
get_open-found chat id s d e = ground (arith, e)

only_one-moved :
    (id : String) (rows : List MediaDesc) (d : MediaDesc)
    → same_id id rows ≡ d ∷ []
    → only_one (take 2 (same_id id rows)) ≡ some d
only_one-moved id rows d e = ap (λ l. only_one (take 2 l)) e

only_one-none : (l : List MediaDesc) → length l ≢ 1 → only_one (take 2 l) ≡ none
only_one-none [] h = refl
only_one-none (a ∷ []) h = ground (arith, h)
only_one-none (a ∷ b ∷ l) h = refl

get_open-moved :
    (chat id : String) (s : Store)
    → row_of chat id s.media ≡ none
    → (get_open false false chat id s).0 ≡ ok (only_one (take 2 (same_id id s.media)))
get_open-moved chat id s e = ground (arith, e)

-- In an open store PutMedia with no disk error succeeds; GetMedia then finds under a key the last
-- descriptor put there, in these or, if none of them has the key, before them.
pub get_media-put_media :
    (ds : List MediaDesc) (s : Store) (chat id : String) (d : MediaDesc)
    → s.closed ≡ false
    → last_of chat id ds (row_of chat id s.media) ≡ some d
    → let (answer, s') = put_media false none false ds s in
      (answer ≡ ok tt) × ((get_media false false chat id s').0 ≡ ok (some d))
unfolding put_media get_media
get_media-put_media ds s chat id d o e =
    let (rows, h) = put_rows-some ds s.media in
    let put = use_store_open (put_open false none false ds) s o ∙ put_open-stored ds s rows h in
    let found = row_of-put_rows chat id ds s.media rows h ∙ e in
    (
      ap (λ r. r.0) put,
      ap (λ r. (get_media false false chat id r.1).0) put
          ∙ ap (λ r. r.0)
              (use_store_open (get_open false false chat id) (record s { media = rows }) o)
          ∙ get_open-found chat id (record s { media = rows }) d found,
    )

-- Where nothing is stored under the chat, an attachment whose message id stands in exactly one
-- row of another chat is found there, and one whose id stands in none or in several is not.
pub get_media_moved :
    (chat id : String) (s : Store)
    → s.closed ≡ false
    → row_of chat id s.media ≡ none
    → ((d : MediaDesc)
        → same_id id s.media ≡ d ∷ []
        → (get_media false false chat id s).0 ≡ ok (some d))
      × (count_of (λ d. str_eq d.message_id id) s.media ≢ 1
          → (get_media false false chat id s).0 ≡ ok none)
unfolding get_media
get_media_moved chat id s o e =
    let answered =
      ap (λ r. r.0) (use_store_open (get_open false false chat id) s o)
      ∙ get_open-moved chat id s e in
    (
      (λ d h. answered ∙ ap ok (only_one-moved id s.media d h)),
      λ h.
          answered
          ∙ ap ok (
              only_one-none (same_id id s.media)
                (λ k. h (omega (arith, length-keep {0} (λ d. str_eq d.message_id id) s.media, k)))),
    )
