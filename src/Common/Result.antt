-- ===== src/Common/Result.antt =====
-- Go's `error` values and its `(value, error)` results.
use fasthttpproxy.Common.{◌≡◌, refl, ◌⊎◌, inl, inr}
use fasthttpproxy.Common.Text.{Str}

-- `io.EOF` and `fasthttp.ErrDialTimeout` are the values that the program compares with or returns
-- by name; any other error is known by its text.
pub data Error : Type 0 where
  eof : Error
  err_dial_timeout : Error
  other : Str → Error

pub data Result {ℓ} (A : Type ℓ) : Type ℓ where
  ok : A → Result A
  err : Error → Result A

pub Result-cases {ℓ} :
    {A : Type ℓ} (r : Result A) → ((a : A) × (r ≡ ok a)) ⊎ ((e : Error) × (r ≡ err e))
Result-cases (ok a) = inl (a, refl)
Result-cases (err e) = inr (e, refl)
