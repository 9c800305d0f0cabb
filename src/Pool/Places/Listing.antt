-- ===== src/Pool/Places/Listing.antt =====
-- The order in which the connections that are taken are listed does not matter.
use fasthttpproxy.Common.{ℕ, List, [], ◌∷◌, ◌++◌, ◌≡◌, ◌≢◌, sym, All}
use fasthttpproxy.Common.Text.{Str}
use fasthttpproxy.Pool.Places.{taken, Once, Tracked}

module _ {ℓ κ} {A : Type ℓ} (P : A → Type κ) where
  All-from_middle :
      (xs : List A) (y : A) (ys : List A) → All P (xs ++ y ∷ ys) → P y × All P (xs ++ ys)
  All-from_middle [] y ys h = h
  All-from_middle (x ∷ xs) y ys h = let r = All-from_middle xs y ys h.1 in (r.0, (h.0, r.1))

  All-to_middle :
      (xs : List A) (y : A) (ys : List A) → P y → All P (xs ++ ys) → All P (xs ++ y ∷ ys)
  All-to_middle [] y ys k h = (k, h)
  All-to_middle (x ∷ xs) y ys k h = (h.0, All-to_middle xs y ys k h.1)

Once-from_middle : (is : List ℕ) (i : ℕ) (js : List ℕ) → Once (is ++ i ∷ js) → Once (i ∷ is ++ js)
Once-from_middle [] i js h = h
Once-from_middle (k ∷ is) i js h =
    let (ne, apart) = All-from_middle (λ x. x ≢ k) is i js h.0 in
    let rest = Once-from_middle is i js h.1 in (((λ e. ne (sym e)), rest.0), (apart, rest.1))

Once-to_middle : (is : List ℕ) (i : ℕ) (js : List ℕ) → Once (i ∷ is ++ js) → Once (is ++ i ∷ js)
Once-to_middle [] i js h = h
Once-to_middle (k ∷ is) i js h = (
  All-to_middle (λ x. x ≢ k) is i js (λ e. h.0.0 (sym e)) h.1.0,
  Once-to_middle is i js (h.0.1, h.1.1),
)

module _ {free : Str → List ℕ} {closed : List ℕ} (is : List ℕ) (i : ℕ) (js : List ℕ) where
  pub from_middle : Tracked free (is ++ i ∷ js) closed → Tracked free (i ∷ is ++ js) closed
  from_middle (home, v) = (
    home,
    record {
      idle = v.idle;
      held = record {
        here = All-from_middle (λ k. home k ≡ taken) is i js v.held.here;
        once = Once-from_middle is i js v.held.once;
      };
      shut = v.shut;
    },
  )

  pub to_middle : Tracked free (i ∷ is ++ js) closed → Tracked free (is ++ i ∷ js) closed
  to_middle (home, v) = (
    home,
    record {
      idle = v.idle;
      held = record {
        here = All-to_middle (λ k. home k ≡ taken) is i js v.held.here.0 v.held.here.1;
        once = Once-to_middle is i js v.held.once;
      };
      shut = v.shut;
    },
  )
