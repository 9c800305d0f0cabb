-- ===== src/Proxy/Fasthttp.antt =====
-- What the handler uses of package fasthttp, which is not part of the repository: the response of a
-- request context, and the header of an upstream's response.
use fasthttpproxy.Common.{ℕ, ◌≡◌}
use fasthttpproxy.Common.Int.{ℤ}
use fasthttpproxy.Common.Text.{Str}
use fasthttpproxy.Common.Result.{Error}

-- `error m c` is ctx.Error(m, c), `copy_header` is ResponseHeader.CopyTo to the response's header,
-- `flush_header` sets ImmediateHeaderFlush, `stream n` is SetBodyStream with the size `n`, and
-- `message` is an error's Error().
pub record Fasthttp : Type 1 where
  pub Response : Type 0
  pub Header : Type 0
  pub error : Str → ℕ → Response → Response
  pub set_status_code : ℕ → Response → Response
  pub status_code : Response → ℕ
  pub copy_header : Header → Response → Response
  pub flush_header : Response → Response
  pub stream : ℤ → Response → Response
  pub header_status : Header → ℕ
  pub content_length : Header → ℤ
  pub message : Error → Str

-- The documented effect of these calls on the status code.
pub record StatusLaws (F : Fasthttp) : Type 0 where
  pub status_code-error : (m : Str) (c : ℕ) (r : F.Response) → F.status_code (F.error m c r) ≡ c
  pub status_code-set : (c : ℕ) (r : F.Response) → F.status_code (F.set_status_code c r) ≡ c
  pub status_code-copy :
      (h : F.Header) (r : F.Response) → F.status_code (F.copy_header h r) ≡ F.header_status h
  pub status_code-flush : (r : F.Response) → F.status_code (F.flush_header r) ≡ F.status_code r
  pub status_code-stream : (n : ℤ) (r : F.Response) → F.status_code (F.stream n r) ≡ F.status_code r
