-- ===== src/Common/Lists.antt =====
-- Lists measured by native numbers, and the last element of a list.
use Prim.Native.Nat.{ℕ, zero, suc, ◌+◌, ◌<◌}
use mathlib.Core.Path.{◌≡◌, refl, ap, subst}
use mathlib.Core.Logic.{◌⊎◌, inl, inr}
use mathlib.Core.List.{List, [], ◌∷◌, ◌++◌}
use mathlib.Core.Option.{Option, none, some, some_inj}
use native.Mathlib.Omega.{arith}

module _ {ℓ} {A : Type ℓ} where
  abbrev pub length : List A → ℕ
  length [] = 0
  length (x ∷ xs) = suc (length xs)

  abbrev pub get_elem? : List A → ℕ → Option A
  get_elem? [] i = none
  get_elem? (x ∷ xs) zero = some x
  get_elem? (x ∷ xs) (suc i) = get_elem? xs i

  abbrev pub take : ℕ → List A → List A
  take zero xs = []
  take (suc n) [] = []
  take (suc n) (x ∷ xs) = x ∷ take n xs

  abbrev pub drop : ℕ → List A → List A
  drop zero xs = xs
  drop (suc n) [] = []
  drop (suc n) (x ∷ xs) = drop n xs

  pub length-append : (xs ys : List A) → length (xs ++ ys) ≡ length xs + length ys
  length-append [] ys = omega arith
  length-append (x ∷ xs) ys = omega (arith, length-append xs ys)

  pub get_elem?-total : (xs : List A) (i : ℕ) → i < length xs → (a : A) × (get_elem? xs i ≡ some a)
  get_elem?-total [] i h = elim h [ ]
  get_elem?-total (x ∷ xs) zero h = (x, refl)
  get_elem?-total (x ∷ xs) (suc i) h = get_elem?-total xs i (omega arith)

  abbrev cons_init : A → Option (List A × A) → List A × A
  cons_init x none = ([], x)
  cons_init x (some (ys, y)) = (x ∷ ys, y)

  -- A slice without its last element, and that element; `none` for the empty slice.
  abbrev pub unsnoc : List A → Option (List A × A)
  unsnoc [] = none
  unsnoc (x ∷ xs) = some (cons_init x (unsnoc xs))

  pub unsnoc-append : (xs : List A) (y : A) → unsnoc (xs ++ y ∷ []) ≡ some (xs, y)
  unsnoc-append [] y = refl
  unsnoc-append (x ∷ xs) y = ap (λ o. some (cons_init x o)) (unsnoc-append xs y)

  -- Every list is empty or splits off its last element.
  pub unsnoc-cases :
      (xs : List A)
      → (unsnoc xs ≡ none) × (xs ≡ [])
        ⊎ ((ys : List A) × (y : A) × (unsnoc xs ≡ some (ys, y)) × (xs ≡ ys ++ y ∷ []))
  unsnoc-cases [] = inl (refl, refl)
  unsnoc-cases (x ∷ xs) = elim (unsnoc-cases xs) [
    | inl (e, f) ↦ inr ([], x, ap (λ o. some (cons_init x o)) e, ap (λ l. x ∷ l) f)
    | inr (ys, y, e, f) ↦ inr (x ∷ ys, y, ap (λ o. some (cons_init x o)) e, ap (λ l. x ∷ l) f)
  ]

  abbrev pub All {κ} : (A → Type κ) → List A → Type κ
  All P [] = Unit
  All P (x ∷ xs) = P x × All P xs

pub All-snoc {ℓ κ} :
    {A : Type ℓ} (P : A → Type κ) (xs : List A) (y : A) → All P xs → P y → All P (xs ++ y ∷ [])
All-snoc P [] y h k = (k, tt)
All-snoc P (x ∷ xs) y h k = (h.0, All-snoc P xs y h.1 k)

pub All-init {ℓ κ} :
    {A : Type ℓ} (P : A → Type κ) (xs : List A) (y : A) → All P (xs ++ y ∷ []) → All P xs × P y
All-init P [] y h = (tt, h.0)
All-init P (x ∷ xs) y h = let r = All-init P xs y h.1 in ((h.0, r.0), r.1)

pub All-map {ℓ κ} :
    {A : Type ℓ} {P Q : A → Type κ} → ((a : A) → P a → Q a) → (xs : List A) → All P xs → All Q xs
All-map f [] h = tt
All-map f (x ∷ xs) h = (f x h.0, All-map f xs h.1)

pub All-both {ℓ κ} :
    {A : Type ℓ} (P Q : A → Type κ) (xs : List A) → All P xs → All Q xs → All (λ a. P a × Q a) xs
All-both P Q [] h k = tt
All-both P Q (x ∷ xs) h k = ((h.0, k.0), All-both P Q xs h.1 k.1)

pub get_elem?-All {ℓ κ} :
    {A : Type ℓ} (P : A → Type κ) (xs : List A) (i : ℕ) {a : A}
    → All P xs
    → get_elem? xs i ≡ some a
    → P a
get_elem?-All P [] i h e = absurd (cc)
get_elem?-All P (x ∷ xs) zero h e = let same = (some_inj).0 e in subst P same h.0
get_elem?-All P (x ∷ xs) (suc i) h e = get_elem?-All P xs i h.1 e
