-- ===== src/Wa/Lru/Laws.antt =====
-- What the bounded map of internal/wa/commands.go keeps.
use Prim.Native.String.{String}
use text.Mathlib.Text.{◌==◌ as str_eq}
use text.Mathlib.TextEquality.{eq_iff}
use voolo_whatsapp_bridge.Common.{
  ℕ, zero, suc, ◌-◌, ◌≤◌, ◌<◌, ◌≡◌, refl, ap, sym, ◌∙◌, ◌⊎◌, inl, inr, true, false, List, [], ◌∷◌,
  none, some, length, take, arith, Bool-cases, if◌then◌else◌,
}
use voolo_whatsapp_bridge.Wa.Lru.{
  Entry, Lru, new_lru, mark, value_of, without, back, but_back, put, get,
}
use voolo_whatsapp_bridge.Wa.Lru.Entries.{
  has, Distinct, without-Distinct, but_back-Distinct, value_of-without, length-without,
  value_of-but_back, but_back-take, back-cons, length-but_back, take_all, without-absent,
}

-- The map has the keys of the list, each once, and there are at most `max` of them.
pub record IsValid (l : Lru) : Type 0 where
  pub indexed : (k : String) → l.m k ≡ has k l.ll
  pub distinct : Distinct l.ll
  pub bounded : length l.ll ≤ l.max

new_lru-IsValid : (max : ℕ) → IsValid (new_lru max)
unfolding new_lru value_of
new_lru-IsValid max = record { indexed = λ k. refl; distinct = tt; bounded = omega arith }

held : (k : String) (l : Lru) → IsValid l → l.m k ≡ true → (v : String) × (value_of k l.ll ≡ some v)
held k l i e = ground (arith, i.indexed k)

absent : (k : String) (l : Lru) → IsValid l → l.m k ≡ false → value_of k l.ll ≡ none
absent k l i e = ground (arith, i.indexed k)

module _ (k v : String) (l : Lru) where
  put-hit : l.m k ≡ true → put k v l ≡ record l { ll = (k, v) ∷ without k l.ll }
  unfolding put
  put-hit e = rw e

  put-room :
      l.m k ≡ false
      → length l.ll < l.max
      → put k v l ≡ record l { ll = (k, v) ∷ l.ll; m = mark l.m k true }
  unfolding put
  put-room e h = ground arith

  put-full :
      (d : Entry)
      → l.m k ≡ false
      → l.max ≤ length l.ll
      → back ((k, v) ∷ l.ll) ≡ some d
      → put k v l ≡ record l { ll = but_back ((k, v) ∷ l.ll); m = mark (mark l.m k true) d.0 false }
  unfolding put
  put-full d e h b = ground arith

  pushed-Distinct : IsValid l → l.m k ≡ false → Distinct ((k, v) ∷ l.ll)
  pushed-Distinct i e = (absent k l i e, i.distinct)

  hit-IsValid : IsValid l → l.m k ≡ true → IsValid (record l { ll = (k, v) ∷ without k l.ll })
  unfolding value_of
  hit-IsValid i e =
      let (w, f) = held k l i e in
      record {
        indexed =
            λ j. ground (arith, eq_iff k j, i.indexed j, value_of-without k j l.ll i.distinct);
        distinct = (
          ground (arith, eq_iff k k, value_of-without k k l.ll i.distinct),
          without-Distinct k l.ll i.distinct,
        );
        bounded = omega (arith, length-without k l.ll f, i.bounded);
      }

  room-IsValid :
      IsValid l
      → l.m k ≡ false
      → length l.ll < l.max
      → IsValid (record l { ll = (k, v) ∷ l.ll; m = mark l.m k true })
  unfolding value_of mark
  room-IsValid i e h = record {
    indexed = λ j. ground (arith, eq_iff k j, eq_iff j k, i.indexed j);
    distinct = pushed-Distinct i e;
    bounded = h;
  }

  value_of-pushed :
      (j : String) → value_of j ((k, v) ∷ l.ll) ≡ (if str_eq k j then some v else value_of j l.ll)
  unfolding value_of
  value_of-pushed j = refl

  full-IsValid :
      (d : Entry)
      → IsValid l
      → l.m k ≡ false
      → back ((k, v) ∷ l.ll) ≡ some d
      → IsValid (record l { ll = but_back ((k, v) ∷ l.ll); m = mark (mark l.m k true) d.0 false })
  unfolding mark
  full-IsValid (b, w) i e q = record {
    indexed = λ j. ground (
      arith,
      eq_iff k j,
      eq_iff j k,
      eq_iff b j,
      eq_iff j b,
      i.indexed j,
      value_of-pushed j,
      value_of-but_back ((k, v) ∷ l.ll) b w j (pushed-Distinct i e) q,
    );
    distinct = but_back-Distinct ((k, v) ∷ l.ll) b w (pushed-Distinct i e) q;
    bounded = omega (arith, length-but_back (k, v) l.ll, i.bounded);
  }

le_or_lt : (a b : ℕ) → (a < b) ⊎ (b ≤ a)
le_or_lt a b = grind arith

-- The whole effect of put on the list: the new pair goes to the front, the old value of the key
-- goes, and of the others as many stay, in order of their last use, as the bound allows.
pub ll-put :
    (k v : String) (l : Lru) → IsValid l → (put k v l).ll ≡ take l.max ((k, v) ∷ without k l.ll)
ll-put k v l i = elim (Bool-cases (l.m k)) [
  | inl e ↦
      let (w, f) = held k l i e in
      rw (put-hit k v l e) (
        sym (
          take_all l.max ((k, v) ∷ without k l.ll)
            (omega (arith, length-without k l.ll f, i.bounded))))
  | inr e ↦ rw (without-absent k l.ll (absent k l i e)) (elim (le_or_lt (length l.ll) l.max) [
    | inl h ↦ rw (put-room k v l e h) (sym (take_all l.max ((k, v) ∷ l.ll) h))
    | inr h ↦
        let (d, b) = back-cons (k, v) l.ll in
        rw (put-full k v l d e h b)
          (but_back-take (k, v) l.ll ∙ ap (λ n. take n ((k, v) ∷ l.ll)) (omega (arith, i.bounded)))
  ])
]

pub put-IsValid : (k v : String) (l : Lru) → IsValid l → IsValid (put k v l)
put-IsValid k v l i = elim (Bool-cases (l.m k)) [
  | inl e ↦ rw (put-hit k v l e) (hit-IsValid k v l i e)
  | inr e ↦ elim (le_or_lt (length l.ll) l.max) [
    | inl h ↦ rw (put-room k v l e h) (room-IsValid k v l i e h)
    | inr h ↦
        let (d, b) = back-cons (k, v) l.ll in
        rw (put-full k v l d e h b) (full-IsValid k v l d i e b)
  ]
]

get-hit :
    (k v : String) (l : Lru)
    → l.m k ≡ true
    → value_of k l.ll ≡ some v
    → get k l ≡ (some v, record l { ll = (k, v) ∷ without k l.ll })
unfolding get
get-hit k v l e f = ground arith

get-miss : (k : String) (l : Lru) → l.m k ≡ false → get k l ≡ (none, l)
unfolding get
get-miss k l e = rw e

pub get-IsValid : (k : String) (l : Lru) → IsValid l → IsValid (get k l).1
get-IsValid k l i = elim (Bool-cases (l.m k)) [
  | inl e ↦ let (v, f) = held k l i e in rw (get-hit k v l e f) (hit-IsValid k v l i e)
  | inr e ↦ rw (get-miss k l e) i
]

-- The calls on one map.
pub data Use : Type 0 where
  puts : String → String → Use
  gets : String → Use

unfoldable pub use_one : Lru → Use → Lru
use_one l (puts k v) = put k v l
use_one l (gets k) = (get k l).1

unfoldable pub use_all : Lru → List Use → Lru
unfolding use_one
use_all l [] = l
use_all l (u ∷ us) = use_all (use_one l u) us

use_all-IsValid : (l : Lru) (us : List Use) → IsValid l → IsValid (use_all l us)
unfolding use_all
use_all-IsValid l [] i = i
use_all-IsValid l (puts k v ∷ us) i = use_all-IsValid (put k v l) us (put-IsValid k v l i)
use_all-IsValid l (gets k ∷ us) i = use_all-IsValid (get k l).1 us (get-IsValid k l i)

-- After any calls the map and the list name the same keys, each once, and there are at most `max`.
pub use_all-new_lru-IsValid : (max : ℕ) (us : List Use) → IsValid (use_all (new_lru max) us)
use_all-new_lru-IsValid max us = use_all-IsValid (new_lru max) us (new_lru-IsValid max)

value_of-take :
    (j : String) (n : ℕ) (es : List Entry)
    → (value_of j (take n es) ≡ value_of j es) ⊎ (value_of j (take n es) ≡ none)
unfolding value_of
value_of-take j zero es = inr refl
value_of-take j (suc n) [] = inl refl
value_of-take j (suc n) ((i, w) ∷ es) = ground (arith, value_of-take j n es)

found-get : (j : String) (l : Lru) → IsValid l → (get j l).0 ≡ value_of j l.ll
unfolding get
found-get j l i = ground (arith, i.indexed j)

-- What a put leaves under a key, by the list that ll-put states.
put-found :
    (k v j : String) (n : ℕ) (es : List Entry)
    → Distinct es
    → (value_of k (take (suc n) ((k, v) ∷ without k es)) ≡ some v)
      × (str_eq k j ≡ false
          → (value_of j (take (suc n) ((k, v) ∷ without k es)) ≡ value_of j es)
            ⊎ (value_of j (take (suc n) ((k, v) ∷ without k es)) ≡ none))
unfolding value_of
put-found k v j n es d = (
  ground (arith, eq_iff k k),
  λ e. ground (arith, value_of-take j n (without k es), value_of-without k j es d),
)

moved-value :
    (k v j : String) (l : Lru)
    → IsValid l
    → value_of k l.ll ≡ some v
    → value_of j ((k, v) ∷ without k l.ll) ≡ value_of j l.ll
unfolding value_of
moved-value k v j l i f = ground (arith, eq_iff k j, value_of-without k j l.ll i.distinct)

-- A look changes the order of the entries and no answer.
pub get-get : (k j : String) (l : Lru) → IsValid l → (get j (get k l).1).0 ≡ (get j l).0
get-get k j l i =
    rw (found-get j (get k l).1 (get-IsValid k l i), found-get j l i)
      (elim (Bool-cases (l.m k)) [
        | inl e ↦ let (v, f) = held k l i e in rw (get-hit k v l e f) (moved-value k v j l i f)
        | inr e ↦ rw (get-miss k l e) refl
      ])

-- What get finds after a put: the value just put, if the bound is not 0, and of another key what
-- was found before, or nothing where that entry has been evicted.
pub get-put :
    (k v j : String) (l : Lru)
    → IsValid l
    → 1 ≤ l.max
    → ((get k (put k v l)).0 ≡ some v)
      × (str_eq k j ≡ false
          → ((get j (put k v l)).0 ≡ (get j l).0) ⊎ ((get j (put k v l)).0 ≡ none))
get-put k v j l i h =
    let valid = put-IsValid k v l i in
    rw (found-get k (put k v l) valid, found-get j (put k v l) valid, found-get j l i)
      (rw (ll-put k v l i) (rw bound (put-found k v j (l.max - 1) l.ll i.distinct)))
  where
    bound : l.max ≡ suc (l.max - 1)
    bound = omega arith
