-- ===== src/Wa/Lru/Entries.antt =====
-- The list of entries of the bounded map of internal/wa/commands.go.
use Prim.Native.String.{String}
use text.Mathlib.Text.{◌==◌ as str_eq}
use text.Mathlib.TextEquality.{eq_iff}
use voolo_whatsapp_bridge.Common.{
  ℕ, zero, suc, ◌≤◌, ◌≡◌, ◌≢◌, refl, ap, Bool, true, false, List, [], ◌∷◌, none, some, length, take,
  arith, if◌then◌else◌,
}
use voolo_whatsapp_bridge.Wa.Lru.{Entry, value_of, without, back, but_back}

abbrev pub has : String → List Entry → Bool
has k es = elim (value_of k es) [ none ↦ false | some v ↦ true ]

-- No key stands twice.
abbrev pub Distinct : List Entry → Type 0
Distinct [] = Unit {0}
Distinct ((k, v) ∷ es) = (value_of k es ≡ none) × Distinct es

pub value_of-without :
    (k j : String) (es : List Entry)
    → Distinct es
    → value_of j (without k es) ≡ (if str_eq k j then none else value_of j es)
unfolding value_of without
value_of-without k j [] d = ground arith
value_of-without k j ((i, v) ∷ es) d =
    ground (arith, eq_iff i k, eq_iff i j, eq_iff k j, value_of-without k j es d.1)

pub without-Distinct : (k : String) (es : List Entry) → Distinct es → Distinct (without k es)
unfolding without
without-Distinct k [] d = tt
without-Distinct k ((i, v) ∷ es) d =
    ground (arith, without-Distinct k es d.1, value_of-without k i es d.1)

pub length-without-le : (k : String) (es : List Entry) → length (without k es) ≤ length es
unfolding without
length-without-le k [] = omega arith
length-without-le k ((i, v) ∷ es) = ground (arith, length-without-le k es)

pub length-without :
    (k : String) (es : List Entry) {v : String}
    → value_of k es ≡ some v
    → suc (length (without k es)) ≡ length es
unfolding value_of without
length-without k [] e = cc
length-without k ((i, w) ∷ es) {v} e = ground (arith, length-without k es {v = v})

pub back-has : (es : List Entry) (k v : String) → back es ≡ some (k, v) → value_of k es ≢ none
unfolding value_of back
back-has [] k v e = cc
back-has ((i, w) ∷ []) k v e = ground (arith, eq_iff i k)
back-has ((i, w) ∷ d ∷ es) k v e = ground (arith, back-has (d ∷ es) k v e)

pub value_of-but_back :
    (es : List Entry) (k v j : String)
    → Distinct es
    → back es ≡ some (k, v)
    → value_of j (but_back es) ≡ (if str_eq k j then none else value_of j es)
unfolding value_of back but_back
value_of-but_back [] k v j d e = cc
value_of-but_back ((i, w) ∷ []) k v j d e = ground arith
value_of-but_back ((i, w) ∷ c ∷ es) k v j d e =
    ground (
      arith,
      eq_iff i j,
      eq_iff k j,
      back-has (c ∷ es) k v e,
      value_of-but_back (c ∷ es) k v j d.1 e,
    )

pub but_back-Distinct :
    (es : List Entry) (k v : String) → Distinct es → back es ≡ some (k, v) → Distinct (but_back es)
unfolding back but_back
but_back-Distinct [] k v d e = tt
but_back-Distinct ((i, w) ∷ []) k v d e = tt
but_back-Distinct ((i, w) ∷ c ∷ es) k v d e =
    (ground (arith, value_of-but_back (c ∷ es) k v i d.1 e), but_back-Distinct (c ∷ es) k v d.1 e)

pub but_back-take : (e : Entry) (es : List Entry) → but_back (e ∷ es) ≡ take (length es) (e ∷ es)
unfolding but_back
but_back-take e [] = refl
but_back-take e (d ∷ es) = ap (λ l. e ∷ l) (but_back-take d es)

pub back-cons : (e : Entry) (es : List Entry) → (d : Entry) × (back (e ∷ es) ≡ some d)
unfolding back
back-cons e [] = (e, refl)
back-cons e (d ∷ es) = back-cons d es

pub length-but_back : (e : Entry) (es : List Entry) → length (but_back (e ∷ es)) ≡ length es
unfolding but_back
length-but_back e [] = refl
length-but_back e (d ∷ es) = ap suc (length-but_back d es)

pub take_all {ℓ} : {A : Type ℓ} (n : ℕ) (xs : List A) → length xs ≤ n → take n xs ≡ xs
take_all zero [] h = refl
take_all zero (x ∷ xs) h = absurd (omega arith)
take_all (suc n) [] h = refl
take_all (suc n) (x ∷ xs) h = ap (λ l. x ∷ l) (take_all n xs (omega arith))

pub without-absent : (k : String) (es : List Entry) → value_of k es ≡ none → without k es ≡ es
unfolding value_of without
without-absent k [] h = refl
without-absent k ((i, w) ∷ es) h = ground (arith, without-absent k es)
