-- ===== src/Pool/Race/Calls.antt =====
-- The calls of upstream_pool.go as steps of one goroutine: which step belongs to which call.
use fasthttpproxy.Common.{ℕ, ◌≡◌, ◌⊎◌}
use fasthttpproxy.Common.Text.{Str}
use fasthttpproxy.Common.Result.{Error, Result, ok, err}
use fasthttpproxy.Common.Net.{Conn}
use fasthttpproxy.Pool.State.{PoolState, Settings}
use fasthttpproxy.Pool.Race.{
  Shared, Pc, outside, holding, Move, pop, find_none, take_idle, expire, uncount, refuse, pass,
  raise, connect, fail, lower, put_back, overflow, drop, shut,
}

-- What a call on the pool of `addr` shares with the others.
abbrev pub shared_of : Str → PoolState → Shared
shared_of addr p = record { pool = p.upstream_pool addr; closed = p.closed }

-- A call: Acquire or Release at this time, the former with what dialing gives, or CloseAndDrop.
pub data Call : Type 0 where
  acquiring : ℕ → Result Conn → Call
  releasing : ℕ → Call
  dropping : Call

abbrev Acquires : Call → Type 0
Acquires k = (now : ℕ) × (r : Result Conn) × (k ≡ acquiring now r)

abbrev DialFails : Call → Type 0
DialFails k = (now : ℕ) × (e : Error) × (k ≡ acquiring now (err e))

abbrev Releases : Call → Type 0
Releases k = (now : ℕ) × (k ≡ releasing now)

-- The step is one of this call: with its time, and with what its dial gives.
abbrev pub Of :
    {settings : Settings} {m m' : Shared} {p p' : Pc}
    → Call
    → Move (λ c. Unit) settings m p m' p'
    → Type 0
Of k (pop e) = Acquires k
Of k (find_none e) = Acquires k
Of k (take_idle now h) = (r : Result Conn) × (k ≡ acquiring now r)
Of k (expire now h) = (r : Result Conn) × (k ≡ acquiring now r)
Of k uncount = Acquires k
Of k (refuse h) = Acquires k
Of k (pass h) = Acquires k
Of k raise = Acquires k
Of k (connect {c = c} v) = (now : ℕ) × (k ≡ acquiring now (ok c))
Of k fail = DialFails k
Of k lower = DialFails k
Of k (put_back now h) = k ≡ releasing now
Of k (overflow h) = Releases k
Of k drop = k ≡ dropping
Of k shut = Releases k ⊎ (k ≡ dropping)

-- One or more steps of one goroutine, all of them of this call.
pub data Run (k : Call) (settings : Settings) (m : Shared) (p : Pc) : Shared → Pc → Type 0 where
  first :
      {m₁ : Shared} {p₁ : Pc} (a : Move (λ c. Unit) settings m p m₁ p₁)
      → Of k a
      → Run k settings m p m₁ p₁
  step :
      {m₁ m₂ : Shared} {p₁ p₂ : Pc}
      → Run k settings m p m₁ p₁
      → (a : Move (λ c. Unit) settings m₁ p₁ m₂ p₂) → Of k a
      → Run k settings m p m₂ p₂

-- Where a goroutine stands after Acquire.
abbrev pub outcome : Result Conn → Pc
outcome (ok c) = holding c
outcome (err e) = outside
