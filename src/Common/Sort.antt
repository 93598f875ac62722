-- ===== src/Common/Sort.antt =====
-- sort.SliceStable as an insertion sort: stable, ordered and a permutation.
use mathlib.Core.List.{Perm}
use mathlib.Core.List.Perm
use Prim.Native.Nat.{ℕ, zero, suc}
use mathlib.Core.Path.{◌≡◌, refl, ap}
use mathlib.Core.Logic.{inl, inr}
use mathlib.Core.Bool.{Bool, true, false}
use mathlib.Core.List.{List, [], ◌∷◌, ◌++◌}
use native.Mathlib.Omega.{arith}
use voolo_whatsapp_bridge.Common.Tests.{if◌then◌else◌, Bool-cases}
use voolo_whatsapp_bridge.Common.Lists.{All, take, drop, length}

module _ {ℓ} {A : Type ℓ} where
  pub take-append-drop : (n : ℕ) (xs : List A) → take n xs ++ drop n xs ≡ xs
  take-append-drop zero xs = refl
  take-append-drop (suc n) [] = refl
  take-append-drop (suc n) (x ∷ xs) = ap (λ l. x ∷ l) (take-append-drop n xs)

  pub All-take {κ} : (P : A → Type κ) (n : ℕ) (xs : List A) → All P xs → All P (take n xs)
  All-take P zero xs h = tt
  All-take P (suc n) [] h = tt
  All-take P (suc n) (x ∷ xs) h = (h.0, All-take P n xs h.1)

  pub All-drop {κ} : (P : A → Type κ) (n : ℕ) (xs : List A) → All P xs → All P (drop n xs)
  All-drop P zero xs h = h
  All-drop P (suc n) [] h = tt
  All-drop P (suc n) (x ∷ xs) h = All-drop P n xs h.1

  pub All-map {κ μ} :
      {P : A → Type κ} {Q : A → Type μ} (f : (a : A) → P a → Q a) (xs : List A)
      → All P xs
      → All Q xs
  All-map f [] h = tt
  All-map f (x ∷ xs) h = (f x h.0, All-map f xs h.1)

  -- An element goes before the first one that is not less: elements that tie keep their order.
  unfoldable pub insert_stable : (A → A → Bool) → A → List A → List A
  insert_stable less x [] = x ∷ []
  insert_stable less x (y ∷ ys) =
      let rest = insert_stable less x ys in if less y x then y ∷ rest else x ∷ y ∷ ys

  -- sort.SliceStable(xs, less).
  unfoldable pub sort_stable : (A → A → Bool) → List A → List A
  unfolding insert_stable
  sort_stable less [] = []
  sort_stable less (x ∷ xs) = insert_stable less x (sort_stable less xs)

  -- No element is less than one before it.
  abbrev pub IsSorted : (A → A → Bool) → List A → Type 0
  IsSorted less [] = Unit {0}
  IsSorted less (x ∷ xs) = All (λ y. less y x ≡ false) xs × IsSorted less xs

module _ {ℓ} {A : Type ℓ} (less : A → A → Bool) where
  insert_stable-perm : (x : A) (xs : List A) → Perm (insert_stable less x xs) (x ∷ xs)
  unfolding insert_stable
  insert_stable-perm x [] = Perm.refl (x ∷ [])
  insert_stable-perm x (y ∷ ys) = elim (Bool-cases (less y x)) [
    | inl h ↦ rw h (Perm.trans (Perm.cons y (insert_stable-perm x ys)) (Perm.swap x y ys))
    | inr h ↦ rw h (Perm.refl (x ∷ y ∷ ys))
  ]

  pub sort_stable-perm : (xs : List A) → Perm (sort_stable less xs) xs
  unfolding sort_stable
  sort_stable-perm [] = Perm.refl []
  sort_stable-perm (x ∷ xs) =
      Perm.trans (insert_stable-perm x (sort_stable less xs)) (Perm.cons x (sort_stable-perm xs))

  All-insert_stable {κ} :
      (P : A → Type κ) (x : A) (xs : List A) → P x → All P xs → All P (insert_stable less x xs)
  unfolding insert_stable
  All-insert_stable P x [] p h = (p, tt)
  All-insert_stable P x (y ∷ ys) p h = elim (Bool-cases (less y x)) [
    | inl e ↦ rw e (h.0, All-insert_stable P x ys p h.1)
    | inr e ↦ rw e (p, (h.0, h.1))
  ]

  pub All-sort_stable {κ} : (P : A → Type κ) (xs : List A) → All P xs → All P (sort_stable less xs)
  unfolding sort_stable
  All-sort_stable P [] h = tt
  All-sort_stable P (x ∷ xs) h =
      All-insert_stable P x (sort_stable less xs) h.0 (All-sort_stable P xs h.1)

  length-insert_stable : (x : A) (xs : List A) → length (insert_stable less x xs) ≡ suc (length xs)
  unfolding insert_stable
  length-insert_stable x [] = refl
  length-insert_stable x (y ∷ ys) = ground (arith, length-insert_stable x ys)

  pub length-sort_stable : (xs : List A) → length (sort_stable less xs) ≡ length xs
  unfolding sort_stable
  length-sort_stable [] = refl
  length-sort_stable (x ∷ xs) =
      omega (arith, length-insert_stable x (sort_stable less xs), length-sort_stable xs)

  pub IsSorted-separated :
      (n : ℕ) (xs : List A)
      → IsSorted less xs
      → All (λ r. All (λ m. less r m ≡ false) (take n xs)) (drop n xs)
  IsSorted-separated zero xs h = All-trivial xs
    where
      All-trivial : (ys : List A) → All (λ r. Unit {0}) ys
      All-trivial [] = tt
      All-trivial (y ∷ ys) = (tt, All-trivial ys)
  IsSorted-separated (suc n) [] h = tt
  IsSorted-separated (suc n) (x ∷ xs) h =
      both (drop n xs) (All-drop _ n xs h.0) (IsSorted-separated n xs h.1)
    where
      both :
          (ys : List A)
          → All (λ y. less y x ≡ false) ys
          → All (λ r. All (λ m. less r m ≡ false) (take n xs)) ys
          → All (λ r. All (λ m. less r m ≡ false) (x ∷ take n xs)) ys
      both [] a b = tt
      both (y ∷ ys) a b = ((a.0, b.0), both ys a.1 b.1)

-- The order of a strict weak order, as sort.SliceStable asks of its less function.
module _ {ℓ} {A : Type ℓ} (less : A → A → Bool)
    (asym : (x y : A) → less x y ≡ true → less y x ≡ false)
    (neg_trans : (x y z : A) → less x y ≡ false → less y z ≡ false → less x z ≡ false) where
  insert_stable-IsSorted :
      (x : A) (xs : List A) → IsSorted less xs → IsSorted less (insert_stable less x xs)
  unfolding insert_stable
  insert_stable-IsSorted x [] h = (tt, tt)
  insert_stable-IsSorted x (y ∷ ys) h = elim (Bool-cases (less y x)) [
    | inl e ↦ rw e (
      All-insert_stable less (λ z. less z y ≡ false) x ys (asym y x e) h.0,
      insert_stable-IsSorted x ys h.1,
    )
    | inr e ↦ rw e ((e, All-map (λ z g. neg_trans z y x g e) ys h.0), h)
  ]

  pub sort_stable-IsSorted : (xs : List A) → IsSorted less (sort_stable less xs)
  unfolding sort_stable
  sort_stable-IsSorted [] = tt
  sort_stable-IsSorted (x ∷ xs) =
      insert_stable-IsSorted x (sort_stable less xs) (sort_stable-IsSorted xs)
