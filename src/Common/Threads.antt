-- ===== src/Common/Threads.antt =====
-- What each of a number of goroutines has, by its number: a change at one of them, and the sum of a
-- weight over the first `n`.
use Prim.Native.Nat.{ℕ, zero, suc, ◌+◌, ◌≤◌, ◌<◌}
use mathlib.Core.Path.{◌≡◌, refl, sym, ap, ◌∙◌, subst}
use mathlib.Core.List.{List, [], ◌++◌, append_assoc}
use mathlib.Core.Logic.{◌≢◌, inl, inr}
use native.Mathlib.Omega.{arith}
use fasthttpproxy.Common.Tests.{◌==◌, if◌then◌else◌, Bool-cases}

module _ {ℓ} {A : Type ℓ} where
  unfoldable pub assign : (ℕ → A) → ℕ → A → ℕ → A
  assign f i a j = if i == j then a else f j

  pub assign_self : (f : ℕ → A) (i : ℕ) (a : A) → assign f i a i ≡ a
  unfolding assign
  assign_self f i a = ground arith

  pub assign_ne : (f : ℕ → A) (i j : ℕ) (a : A) → i ≢ j → assign f i a j ≡ f j
  unfolding assign
  assign_ne f i j a h = ground arith

  module _ (w : A → ℕ) where
    pub total : ℕ → (ℕ → A) → ℕ
    total zero f = 0
    total (suc n) f = w (f n) + total n f

    total-assign_above :
        (n : ℕ) (f : ℕ → A) (i : ℕ) (a : A) → n ≤ i → total n (assign f i a) ≡ total n f
    unfolding total
    total-assign_above zero f i a h = refl
    total-assign_above (suc n) f i a h =
        rw (assign_ne f i n a (λ e. omega arith), total-assign_above n f i a (omega arith)) refl

    -- The change of one weight is the change of the sum.
    pub total-assign :
        (n : ℕ) (f : ℕ → A) (i : ℕ) (a : A)
        → i < n
        → total n (assign f i a) + w (f i) ≡ total n f + w a
    unfolding total
    total-assign zero f i a h = elim h [ ]
    total-assign (suc n) f i a h = elim (Bool-cases (i == n)) [
      | inl same ↦
          let e : i ≡ n = ground arith in
          let above = total-assign_above n f i a (omega arith) in
          rw (← e) (rw (assign_self f i a) (omega (arith, rw (← e) at above)))
      | inr other ↦
          let ne : i ≢ n = λ e. ground arith in
          rw (assign_ne f i n a ne) (omega (arith, total-assign n f i a (ground arith)))
    ]

    pub total-zero : (n : ℕ) (f : ℕ → A) → ((i : ℕ) → w (f i) ≡ 0) → total n f ≡ 0
    unfolding total
    total-zero zero f h = refl
    total-zero (suc n) f h = omega (arith, h n, total-zero n f h)

    pub total-le_length : (n : ℕ) (f : ℕ → A) → ((a : A) → w a ≤ 1) → total n f ≤ n
    unfolding total
    total-le_length zero f h = omega arith
    total-le_length (suc n) f h = omega (arith, h (f n), total-le_length n f h)

  pub total_mono :
      (w v : A → ℕ) (n : ℕ) (f : ℕ → A) → ((a : A) → w a ≤ v a) → total w n f ≤ total v n f
  unfolding total
  total_mono w v zero f h = omega arith
  total_mono w v (suc n) f h = omega (arith, h (f n), total_mono w v n f h)

-- What holds of each after a change of one.
pub assigned {ℓ κ} :
    {A : Type ℓ} (P : A → ℕ → Type κ) (f : ℕ → A) (i : ℕ) (a : A)
    → P a i
    → ((j : ℕ) → i ≢ j → P (f j) j)
    → (j : ℕ) → P (assign f i a j) j
assigned P f i a one rest j = elim (Bool-cases (i == j)) [
  | inl same ↦
      let e : i ≡ j = ground arith in
      subst (λ k. P (assign f i a k) k) e (rw (assign_self f i a) one)
  | inr other ↦ let ne : i ≢ j = λ e. ground arith in rw (assign_ne f i j a ne) (rest j ne)
]

-- What all of the first `n` have, as one list.
module _ {ℓ κ} {A : Type ℓ} {B : Type κ} (w : A → List B) where
  unfoldable pub gathered : ℕ → (ℕ → A) → List B
  gathered zero f = []
  gathered (suc n) f = w (f n) ++ gathered n f

  gathered-assign_above :
      (n : ℕ) (f : ℕ → A) (i : ℕ) (a : A) → n ≤ i → gathered n (assign f i a) ≡ gathered n f
  unfolding gathered
  gathered-assign_above zero f i a h = refl
  gathered-assign_above (suc n) f i a h =
      rw (assign_ne f i n a (λ e. omega arith), gathered-assign_above n f i a (omega arith)) refl

  -- What one of them has stands between what the others have, also after a change.
  pub record Split (n : ℕ) (f : ℕ → A) (i : ℕ) : Type (ℓ ⊔ κ) where
    pub before : List B
    pub after : List B
    pub same : gathered n f ≡ before ++ (w (f i) ++ after)
    pub changed : (a : A) → gathered n (assign f i a) ≡ before ++ (w a ++ after)

  pub split : (n : ℕ) (f : ℕ → A) (i : ℕ) → i < n → Split n f i
  unfolding gathered
  split zero f i h = elim h [ ]
  split (suc n) f i h = elim (Bool-cases (i == n)) [
    | inl here ↦
        let e : i ≡ n = ground arith in
        record {
          before = [];
          after = gathered n f;
          same = rw e refl;
          changed = λ a.
              rw (← e) (rw (assign_self f i a, gathered-assign_above i f i a (omega arith)) refl);
        }
    | inr there ↦
        let s = split n f i (ground arith) in
        let ne : i ≢ n = λ e. ground arith in
        record {
          before = w (f n) ++ s.before;
          after = s.after;
          same = ap (λ l. w (f n) ++ l) s.same ∙ sym (append_assoc (w (f n)) s.before _);
          changed = λ a.
              rw (assign_ne f i n a ne)
                (ap (λ l. w (f n) ++ l) (s.changed a) ∙ sym (append_assoc (w (f n)) s.before _));
        }
  ]
