-- ===== src/Wa/Lifecycle/Codes/Shown.antt =====
-- What cycleCodes of internal/wa/pairing.go shows, and that it comes to an end.
use Prim.Native.String.{String}
use text.Mathlib.Text.{◌==◌ as str_eq}
use voolo_whatsapp_bridge.Common.{
  ℕ, suc, ◌+◌, ◌≤◌, ◌≡◌, ◌≢◌, refl, ap, ◌∙◌, subst, leb→le, Bool, true, false, ◌&&◌, List, [], ◌∷◌,
  ◌++◌, map, length, arith, leb, by_test, by_test_false,
}
use voolo_whatsapp_bridge.Wa.Lifecycle.{Notice, qr}
use voolo_whatsapp_bridge.Wa.Lifecycle.Codes.{
  Wake, expired, rotated, new_codes, cancelled, Left, still_waiting, Showing, ttl_of, shown,
  after_wake, ends_it, cycle_codes,
}

-- How many more codes a Wake lets the pairing show than a timer does.
abbrev pub extra : Wake → ℕ
extra (rotated old new) = 1
extra (new_codes fresh) = length fresh
extra w = 0

abbrev pub extras : List (ℕ × Wake) → ℕ
extras [] = 0
extras ((now, w) ∷ wakes) = extra w + extras wakes

length-map : (f : String → String) (xs : List String) → length (map f xs) ≡ length xs
length-map f [] = refl
length-map f (x ∷ xs) = omega (arith, length-map f xs)

after_wake-shorter :
    (c : Showing) (w : Wake) (code : String) (codes : List String)
    → length (after_wake c w (code ∷ codes)) ≤ length codes + extra w
after_wake-shorter c expired code codes = omega arith
after_wake-shorter c (rotated old new) code codes =
    omega (arith, length-map (λ t. c.replace t old new) codes)
after_wake-shorter c (new_codes fresh) code codes = omega arith
after_wake-shorter c cancelled code codes = omega arith

-- cycleCodes comes to its end: as many wakes as there are codes, and one more for each code that a
-- rotation shows again or that WhatsApp sends, are enough for it to run out of codes or be cancelled.
pub cycle_codes-ends :
    (c : Showing) (idx : ℕ) (codes : List String) (wakes : List (ℕ × Wake))
    → length codes + extras wakes ≤ length wakes
    → (cycle_codes c idx codes wakes).1 ≢ still_waiting
unfolding cycle_codes
cycle_codes-ends c idx [] wakes h = λ e. ground arith
cycle_codes-ends c idx (code ∷ codes) [] h = absurd (omega (arith, h))
cycle_codes-ends c idx (code ∷ codes) ((now, w) ∷ wakes) h =
    by_test (λ (r : List Notice × Left). r.1 ≢ still_waiting) (ends_it w) (λ e. λ f. ground arith)
      (λ e.
        cycle_codes-ends c (suc idx) (after_wake c w (code ∷ codes)) wakes
          (omega (arith, h, after_wake-shorter c w code codes)))

-- The QR events of a pairing, their indexes rising from `lo`, each code with its lifetime.
abbrev pub Rising : Showing → ℕ → List Notice → Type 0
Rising c lo [] = Unit
Rising c lo (qr r code expires i ∷ lines) =
    (r ≡ c.reply_to)
    × (lo ≤ i)
    × (c.code_bytes code ≤ 4096)
    × (ttl_of c i ≤ expires)
    × Rising c (suc i) lines
Rising c lo (n ∷ lines) = ⊥

Rising-later :
    (c : Showing) (lo hi : ℕ) (lines : List Notice)
    → lo ≤ hi
    → Rising c hi lines
    → Rising c lo lines
Rising-later c lo hi [] h r = tt
Rising-later c lo hi (qr p code expires i ∷ lines) h (a, b, d, e, f) =
    (a, omega (arith, h, b), d, e, f)
Rising-later c lo hi (n ∷ lines) h r = r

and_right : (a b : Bool) → (a && b) ≡ true → b ≡ true
and_right true b e = e
and_right false b e = ground arith

shown-Rising :
    (c : Showing) (now idx : ℕ) (code : String) (lines : List Notice)
    → Rising c (suc idx) lines
    → Rising c idx (shown c now idx code ++ lines)
shown-Rising c now idx code lines r =
    by_test (λ (ls : List Notice). Rising c idx (ls ++ lines))
      (str_eq c.phone "" && leb (c.code_bytes code) 4096)
      (λ e. (refl, omega arith, short_enough e, omega arith, r))
      (λ e. Rising-later c idx (suc idx) lines (omega arith) r)
  where
    short_enough :
        (str_eq c.phone "" && leb (c.code_bytes code) 4096) ≡ true → c.code_bytes code ≤ 4096
    short_enough e =
        leb→le (c.code_bytes code) 4096
          (and_right (str_eq c.phone "") (leb (c.code_bytes code) 4096) e)

append_nil : (ls : List Notice) → ls ++ [] ≡ ls
append_nil [] = refl
append_nil (n ∷ ls) = ap (λ l. n ∷ l) (append_nil ls)

-- Whatever wakes cycleCodes, the QR events of a pairing carry its reply id, indexes that rise, codes of
-- 4096 bytes at most, and an expiry no sooner than the lifetime of their index.
pub cycle_codes-Rising :
    (c : Showing) (idx : ℕ) (codes : List String) (wakes : List (ℕ × Wake))
    → Rising c idx (cycle_codes c idx codes wakes).0
unfolding cycle_codes
cycle_codes-Rising c idx [] wakes = tt
cycle_codes-Rising c idx (code ∷ codes) [] = tt
cycle_codes-Rising c idx (code ∷ codes) ((now, w) ∷ wakes) =
    by_test (λ (r : List Notice × Left). Rising c idx r.0) (ends_it w)
      (λ e.
        subst (Rising c idx) (append_nil (shown c now idx code))
          (shown-Rising c now idx code [] tt))
      (λ e.
        shown-Rising c now idx code _
          (cycle_codes-Rising c (suc idx) (after_wake c w (code ∷ codes)) wakes))

-- A pairing with a phone number shows no QR code.
pub cycle_codes_phone :
    (c : Showing) (idx : ℕ) (codes : List String) (wakes : List (ℕ × Wake))
    → str_eq c.phone "" ≡ false
    → (cycle_codes c idx codes wakes).0 ≡ []
unfolding cycle_codes
cycle_codes_phone c idx [] wakes h = refl
cycle_codes_phone c idx (code ∷ codes) [] h = refl
cycle_codes_phone c idx (code ∷ codes) ((now, w) ∷ wakes) h =
    by_test (λ (r : List Notice × Left). r.0 ≡ []) (ends_it w) (λ e. none_shown)
      (λ e.
        ap (λ ls. ls ++ (cycle_codes c (suc idx) (after_wake c w (code ∷ codes)) wakes).0)
          none_shown
        ∙ cycle_codes_phone c (suc idx) (after_wake c w (code ∷ codes)) wakes h)
  where
    none_shown : shown c now idx code ≡ []
    none_shown =
        by_test_false (str_eq c.phone "" && leb (c.code_bytes code) 4096) _ _
          (ap (λ q. q && leb (c.code_bytes code) 4096) h)
