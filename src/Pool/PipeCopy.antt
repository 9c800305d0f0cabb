-- ===== src/Pool/PipeCopy.antt =====
-- internal/pool/bufio_pool.go: PipeCopy, from any io.Reader to a connection.
use fasthttpproxy.Common.{
  ℕ, zero, suc, ◌≤◌, Option, none, some, List, [], ◌∷◌, ◌≡◌, ap, ◌∙◌, arith, length,
}
use fasthttpproxy.Common.Int.{ℤ, pos, negsuc, ◌+ℤ◌, int64, int64-+ℤ, int_laws}
use fasthttpproxy.Common.Result.{Error, eof, err_dial_timeout, other}
use fasthttpproxy.Common.Net.{Reader}
use fasthttpproxy.Pool.State.{PoolState}

abbrev pub publish_pipe : PoolState → PoolState
publish_pipe p = record p {
  metrics = record (p.metrics) {
    pipe_copy_buf_pool_in_use = p.counters.pipe_in_use;
    pipe_copy_buf_pool_idle = p.counters.pipe_idle;
  };
}

-- metricsDownPipeCopy
unfoldable pub metrics_down_pipe_copy : PoolState → PoolState
metrics_down_pipe_copy p = publish_pipe (record p {
  counters = record (p.counters) {
    pipe_in_use = int64 (p.counters.pipe_in_use +ℤ negsuc 0);
    pipe_idle = int64 (p.counters.pipe_idle +ℤ pos 1);
  };
})

-- metricsUpPipeCopy
unfoldable pub metrics_up_pipe_copy : PoolState → PoolState
metrics_up_pipe_copy p = publish_pipe (record p {
  counters = record (p.counters) {
    pipe_in_use = int64 (p.counters.pipe_in_use +ℤ pos 1);
    pipe_idle = int64 (p.counters.pipe_idle +ℤ negsuc 0);
  };
})

-- What PipeCopy returns for the error that Read gave: nil at the end of the source.
abbrev pub read_result : Error → Option Error
read_result eof = none
read_result err_dial_timeout = some err_dial_timeout
read_result (other s) = some (other s)

there_and_back : (a : ℤ) → int64 a ≡ a → int64 (int64 (a +ℤ pos 1) +ℤ negsuc 0) ≡ a
there_and_back a fits =
    let e : a +ℤ pos 1 +ℤ negsuc 0 ≡ a = omega int_laws in
    int64-+ℤ (a +ℤ pos 1) (negsuc 0) ∙ ap int64 e ∙ fits

back_and_there : (a : ℤ) → int64 a ≡ a → int64 (int64 (a +ℤ negsuc 0) +ℤ pos 1) ≡ a
back_and_there a fits =
    let e : a +ℤ negsuc 0 +ℤ pos 1 ≡ a = omega int_laws in
    int64-+ℤ (a +ℤ negsuc 0) (pos 1) ∙ ap int64 e ∙ fits

up_down :
    (p : PoolState)
    → int64 p.counters.pipe_in_use ≡ p.counters.pipe_in_use
    → int64 p.counters.pipe_idle ≡ p.counters.pipe_idle
    → (metrics_down_pipe_copy (metrics_up_pipe_copy p)).counters ≡ p.counters
unfolding metrics_down_pipe_copy metrics_up_pipe_copy
up_down p fits fits' = λ i. record (p.counters) {
  pipe_in_use = there_and_back p.counters.pipe_in_use fits i;
  pipe_idle = back_and_there p.counters.pipe_idle fits' i;
}

module _ {S W : Type 0} (src : Reader S) (write : List ℕ → W → Option Error × W) where
  -- `if n > 0 { dst.Write(buf[:n]) }`
  unfoldable pub write_chunk : List ℕ → W → Option Error × W
  write_chunk [] w = (none, w)
  write_chunk (b ∷ bs) w = write (b ∷ bs) w

  -- The loop, with a buffer of `k` bytes. The first component is `none` where the fuel ran out, and
  -- else the error that PipeCopy returns.
  unfoldable pub copy_loop : ℕ → ℕ → S → W → Option (Option Error) × W
  unfolding write_chunk
  copy_loop zero k s w = (none, w)
  copy_loop (suc fuel) k s w =
      let ((chunk, e), s') = src.read k s in
      let (failure, w') = write_chunk chunk w in
      elim failure [
        | some error ↦ (some (some error), w')
        | none ↦ elim e [
          | some error ↦ (some (read_result error), w')
          | none ↦ copy_loop fuel k s' w'
        ]
      ]

  -- PipeCopy, with a buffer of `k` bytes from the pool.
  unfoldable pub pipe_copy : ℕ → ℕ → S → W → PoolState → PoolState × Option (Option Error) × W
  unfolding copy_loop metrics_up_pipe_copy metrics_down_pipe_copy
  pipe_copy fuel k s w p =
      let (result, w') = copy_loop fuel k s w in
      (metrics_down_pipe_copy (metrics_up_pipe_copy p), result, w')

  -- The source gives these chunks to reads of `k` bytes, the last one together with the error.
  pub data Gives (k : ℕ) : S → List (List ℕ) → Error → Type 0 where
    ends :
        {s s' : S} {chunk : List ℕ} {e : Error}
        → src.read k s ≡ ((chunk, some e), s')
        → Gives k s (chunk ∷ []) e
    more :
        {s s' : S} {chunk : List ℕ} {chunks : List (List ℕ)} {e : Error}
        → src.read k s ≡ ((chunk, none), s')
        → Gives k s' chunks e
        → Gives k s (chunk ∷ chunks) e

  -- Delivery of the chunks in order: the empty ones are skipped, and the first write that fails ends
  -- it with its error.
  unfoldable pub deliver : List (List ℕ) → Error → W → Option Error × W
  deliver [] e w = (read_result e, w)
  deliver (chunk ∷ chunks) e w =
      let (failure, w') = write_chunk chunk w in
      let rest = deliver chunks e w' in elim failure [ some error ↦ (some error, w') | none ↦ rest ]

  pub loop-deliver :
      (k fuel : ℕ) {s : S} {chunks : List (List ℕ)} {e : Error}
      → Gives k s chunks e
      → length chunks ≤ fuel
      → (w : W) → copy_loop fuel k s w ≡ (some (deliver chunks e w).0, (deliver chunks e w).1)
  unfolding copy_loop deliver
  loop-deliver k zero (ends h) enough w = absurd (omega arith)
  loop-deliver k zero (more h g) enough w = absurd (omega arith)
  loop-deliver k (suc fuel) (ends {chunk = chunk} h) enough w = ground arith
  loop-deliver k (suc fuel) (more {chunk = chunk} h g) enough w =
      ground (arith, loop-deliver k fuel g (omega arith) (write_chunk chunk w).1)

  -- With fuel for as many reads as the source has chunks, PipeCopy returns, and it has delivered the
  -- chunks in order, the empty ones skipped, up to and with the first failing write. It returns that
  -- write's error; else nil where the source ended by EOF, and the source's error where it did not.
  -- The two counters of pipe buffers are as before the call.
  pub pipe_copy-deliver :
      (k fuel : ℕ) {s : S} {chunks : List (List ℕ)} {e : Error}
      → Gives k s chunks e
      → length chunks ≤ fuel
      → (w : W) (p : PoolState) → int64 p.counters.pipe_in_use ≡ p.counters.pipe_in_use
      → int64 p.counters.pipe_idle ≡ p.counters.pipe_idle
      → let r = pipe_copy fuel k s w p in
        (r.1 ≡ some (deliver chunks e w).0)
        × (r.2 ≡ (deliver chunks e w).1)
        × (r.0.counters ≡ p.counters)
  unfolding pipe_copy
  pipe_copy-deliver k fuel g enough w p fits fits' =
      let e = loop-deliver k fuel g enough w in
      (ap (λ x. x.0) e, ap (λ x. x.1) e, up_down p fits fits')
