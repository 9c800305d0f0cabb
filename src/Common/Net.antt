-- ===== src/Common/Net.antt =====
-- Connections, TLS configurations, and readers: what the program uses of packages net, crypto/tls
-- and io.
use Prim.Native.Nat.{ℕ, ◌≤◌}
use mathlib.Core.Bool.{Bool, false}
use mathlib.Core.Option.{Option, none}
use mathlib.Core.List.{List, []}
use fasthttpproxy.Common.Lists.{length}
use fasthttpproxy.Common.Text.{Str}
use fasthttpproxy.Common.Result.{Error}

-- The fields of tls.Config that the program sets; certificate pools and key pairs are opaque.
pub record TlsConfig : Type 0 where
  pub insecure_skip_verify : Bool
  pub server_name : Str
  pub root_cas : Option ℕ
  pub certificates : List ℕ
  pub min_version : ℕ

-- &tls.Config{}
abbrev pub empty_tls_config : TlsConfig
empty_tls_config = record {
  insecure_skip_verify = false;
  server_name = [];
  root_cas = none;
  certificates = [];
  min_version = 0;
}

-- A net.Conn: a TCP connection, with the configuration of tls.Client where one is laid over it.
pub record Conn : Type 0 where
  pub id : ℕ
  pub tls : Option TlsConfig

-- What a call of Read(p) gives: the bytes written to p, whose number is n, and the error.
abbrev pub Reading : Type 0
Reading = List ℕ × Option Error

-- An io.Reader over a state. The law is io.Reader's: a call never gives more than the buffer holds.
pub record Reader (S : Type 0) : Type 0 where
  pub read : ℕ → S → Reading × S
  pub read_fits : (k : ℕ) (s : S) → length (read k s).0.0 ≤ k
