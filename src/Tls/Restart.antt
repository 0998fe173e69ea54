-- ===== src/Tls/Restart.antt =====
-- The starts of a server one after the other, over the files that stay.
pub mod Installed
pub mod Stuck
use secure_chat.Prelude.{
  ℕ, ◌≡◌, Bool, true, false, Option, none, some, List, [], ◌∷◌, if◌then◌else◌, Text, Run, ok, ◌>>=◌,
}
use secure_chat.Tls.{
  Disk, Pem, Answers, Live, Tls, server_key_file, server_cert_file, ssl_init_success,
  ssl_ctx_creation_failure, ssl_object_failure,
}
use secure_chat.Tls.Init.{Outcome, returned, exited, init_ssl}

-- A process starts with nothing allocated.
abbrev pub started : Disk → Tls
started d = record {
  disk = d;
  live = record { key_ctxs = 0; keys = 0; x509s = 0; files = 0; ssl_ctxs = 0; ssls = 0 };
  ssl_ctx = false;
  ssl = false;
}

-- One start after the other: the files behind them, and how each init_ssl ended.
unfoldable pub starts : Pem → List Answers → Disk → Run (Disk × List Outcome)
starts pem [] d = ok (d, [])
starts pem (a ∷ later) d = do
  (t, outcome) ← init_ssl pem a (started d)
  (d', outcomes) ← starts pem later t.disk
  ok (d', outcome ∷ outcomes)

-- What the code relies on: OpenSSL reads back what it has written, and a key loads next to its own
-- certificate.
pub record IsPem (pem : Pem) : Type 0 where
  pub key : (k : ℕ) → pem.read_key (pem.key_bytes k) ≡ some k
  pub certificate : (k : ℕ) → pem.read_certificate (pem.certificate_bytes k) ≡ some k
  pub loads : (k : ℕ) → pem.key_loads k (pem.key_bytes k) ≡ true

-- Every call succeeds, and the new key is `k`.
pub record IsGood (k : ℕ) (a : Answers) : Type 0 where
  pub ssl_ctx_new : a.ssl_ctx_new ≡ true
  pub key_ctx_new : a.key_ctx_new ≡ true
  pub keygen_init : a.keygen_init ≡ true
  pub keygen_bits : a.keygen_bits ≡ true
  pub keygen : a.keygen ≡ some k
  pub open_key : a.open_key ≡ true
  pub x509_new : a.x509_new ≡ true
  pub read_key_file : a.read_key_file ≡ true
  pub sign : a.sign ≡ true
  pub open_certificate : a.open_certificate ≡ true
  pub ssl_new : a.ssl_new ≡ true

-- The files hold the key `k` and its certificate.
pub record IsInstalled (pem : Pem) (k : ℕ) (d : Disk) : Type 0 where
  pub key : d server_key_file ≡ some (pem.key_bytes k)
  pub certificate : d server_cert_file ≡ some (pem.certificate_bytes k)

-- How a start over installed files ends.
unfoldable pub served : Answers → Outcome
served a =
    if a.ssl_ctx_new
    then if a.ssl_new then returned ssl_init_success else returned ssl_object_failure
    else returned ssl_ctx_creation_failure
