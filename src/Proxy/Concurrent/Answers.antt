-- ===== src/Proxy/Concurrent/Answers.antt =====
-- The answers that goroutines have open: each is read from the upstream of its goroutine.
use fasthttpproxy.Common.{ℕ, some, ◌≡◌}
use fasthttpproxy.Common.Threads.{assign, assigned}
use fasthttpproxy.Common.Text.{Str}
use fasthttpproxy.Pool.Buffers.{release_bufio_reader}
use fasthttpproxy.Proxy.Fasthttp.{Fasthttp}
use fasthttpproxy.Proxy.Concurrent.{Phase, streaming, Task}

-- An answer is read from the goroutine's upstream, and releases its bufio.Reader in the end.
abbrev pub Fits : (F : Fasthttp) → {S : Type 0} → Phase F S → Str → Type 0
Fits F (streaming b) addr = (b.upstream_addr ≡ addr) × (b.on_done ≡ some release_bufio_reader)
Fits F _ addr = Unit

module _ (F : Fasthttp) {S W : Type 0} where
  pub Fits-assign :
      (f : ℕ → Task F S W) (i : ℕ) (t : Task F S W)
      → Fits F t.phase t.address
      → ((j : ℕ) → Fits F (f j).phase (f j).address)
      → (j : ℕ) → Fits F (assign f i t j).phase (assign f i t j).address
  Fits-assign f i t one all = assigned (λ x j. Fits F x.phase x.address) f i t one (λ j ne. all j)
