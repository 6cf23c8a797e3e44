-- ===== src/Base/Slices.antt =====
-- How `take`, `drop` and the reads of a list meet its `++`.
use Prim.Native.Nat.{ℕ, zero, suc, ◌+◌, ◌<◌, ◌≤◌}
use mathlib.Core.Path.{◌≡◌, refl, ap}
use mathlib.Core.List.{List, [], ◌∷◌, ◌++◌}
use mathlib.Core.Option.{some}
use native.Mathlib.Omega.{arith}
use cartel.Base.Lists.{length, get_elem?, get_or, take, drop}

module _ {ℓ} {A : Type ℓ} where
  pub drop-append : (n : ℕ) (xs ys : List A) → n ≤ length xs → drop n (xs ++ ys) ≡ drop n xs ++ ys
  drop-append zero xs ys h = refl
  drop-append (suc n) [] ys h = absurd (omega arith)
  drop-append (suc n) (x ∷ xs) ys h = drop-append n xs ys (omega arith)

  pub take-append : (n : ℕ) (xs ys : List A) → n ≤ length xs → take n (xs ++ ys) ≡ take n xs
  take-append zero xs ys h = refl
  take-append (suc n) [] ys h = absurd (omega arith)
  take-append (suc n) (x ∷ xs) ys h = ap (◌∷◌ x) (take-append n xs ys (omega arith))

  pub drop-eq-nil : (n : ℕ) (xs : List A) → length xs ≤ n → drop n xs ≡ []
  drop-eq-nil zero [] h = refl
  drop-eq-nil zero (x ∷ xs) h = absurd (omega arith)
  drop-eq-nil (suc n) [] h = refl
  drop-eq-nil (suc n) (x ∷ xs) h = drop-eq-nil n xs (omega arith)

  pub drop-suc : (n : ℕ) (x : A) (xs : List A) → drop (n + 1) (x ∷ xs) ≡ drop n xs
  drop-suc n x xs = let e : n + 1 ≡ suc n = omega arith in rw e

  pub drop-drop : (m n : ℕ) (xs : List A) → drop m (drop n xs) ≡ drop (n + m) xs
  drop-drop m zero xs = let e : 0 + m ≡ m = omega arith in rw e
  drop-drop zero (suc n) [] = let e : suc n + 0 ≡ suc n = omega arith in rw e
  drop-drop (suc m) (suc n) [] = let e : suc n + suc m ≡ suc (n + suc m) = omega arith in rw e
  drop-drop m (suc n) (x ∷ xs) =
      let e : suc n + m ≡ suc (n + m) = omega arith in rw e (drop-drop m n xs)

  pub get_elem?-append :
      (i : ℕ) (xs ys : List A) → i < length xs → get_elem? (xs ++ ys) i ≡ get_elem? xs i
  get_elem?-append i [] ys h = absurd (omega arith)
  get_elem?-append zero (x ∷ xs) ys h = refl
  get_elem?-append (suc i) (x ∷ xs) ys h = get_elem?-append i xs ys (omega arith)

  pub get_elem?-drop : (n i : ℕ) (xs : List A) → get_elem? (drop n xs) i ≡ get_elem? xs (n + i)
  get_elem?-drop zero i xs = let e : 0 + i ≡ i = omega arith in rw e
  get_elem?-drop (suc n) i [] = refl
  get_elem?-drop (suc n) i (x ∷ xs) =
      let e : suc n + i ≡ suc (n + i) = omega arith in rw e (get_elem?-drop n i xs)

  pub get_or-append :
      (i : ℕ) (d : A) (xs ys : List A) → i < length xs → get_or (xs ++ ys) i d ≡ get_or xs i d
  get_or-append i d [] ys h = absurd (omega arith)
  get_or-append zero d (x ∷ xs) ys h = refl
  get_or-append (suc i) d (x ∷ xs) ys h = get_or-append i d xs ys (omega arith)

  pub get_or-drop : (n i : ℕ) (d : A) (xs : List A) → get_or (drop n xs) i d ≡ get_or xs (n + i) d
  get_or-drop zero i d xs = let e : 0 + i ≡ i = omega arith in rw e
  get_or-drop (suc n) i d [] = refl
  get_or-drop (suc n) i d (x ∷ xs) =
      let e : suc n + i ≡ suc (n + i) = omega arith in rw e (get_or-drop n i d xs)

  pub lt_of_get_elem? : (i : ℕ) (xs : List A) {a : A} → get_elem? xs i ≡ some a → i < length xs
  lt_of_get_elem? i [] h = cc
  lt_of_get_elem? zero (x ∷ xs) h = omega arith
  lt_of_get_elem? (suc i) (x ∷ xs) h = omega (arith, lt_of_get_elem? i xs h)
