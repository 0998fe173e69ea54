-- ===== src/Tls/Init.antt =====
-- init_ssl of server/src/server_openssl.c.
use secure_chat.Prelude.{
  ℕ, suc, Bool, true, false, Option, none, some, if◌then◌else◌, Text, Run, ok, ◌>>=◌,
}
use secure_chat.Tls.{
  Pem, Answers, Tls, server_key_file, server_cert_file, ssl_init_success, ssl_ctx_creation_failure,
  certificate_load_failure, private_key_load_failure, ssl_object_failure, destroy_ssl,
}
use secure_chat.Tls.Generate.{check_and_generate_key_cert}

-- How init_ssl ends: with its code, or with the process in check_and_generate_key_cert.
pub data Outcome : Type 0 where
  returned : ℕ → Outcome
  exited : Outcome

module _ (pem : Pem) (a : Answers) where
  unfoldable pub give_up : ℕ → Tls → Run (Tls × Outcome)
  give_up code t = destroy_ssl t >>= λ t1. ok (t1, returned code)

  -- `SSL_new`
  unfoldable pub new_ssl : Tls → Run (Tls × Outcome)
  new_ssl t =
      if a.ssl_new
      then ok (
        record t { live = record t.live { ssls = suc t.live.ssls }; ssl = true },
        returned ssl_init_success,
      )
      else give_up ssl_object_failure (record t { ssl = false })

  -- `SSL_CTX_use_PrivateKey_file`, behind the certificate of the key `k`
  unfoldable pub use_key : ℕ → Option Text → Tls → Run (Tls × Outcome)
  use_key k none t = give_up private_key_load_failure t
  use_key k (some bytes) t =
      if pem.key_loads k bytes then new_ssl t else give_up private_key_load_failure t

  unfoldable pub use_certificate : Option ℕ → Tls → Run (Tls × Outcome)
  use_certificate none t = give_up certificate_load_failure t
  use_certificate (some k) t = use_key k (t.disk server_key_file) t

  -- `SSL_CTX_use_certificate_file`
  unfoldable pub certificate_of : Option Text → Option ℕ
  certificate_of none = none
  certificate_of (some bytes) = pem.read_certificate bytes

  unfoldable pub load_pair : Tls × Bool → Run (Tls × Outcome)
  load_pair (t, false) = ok (t, exited)
  load_pair (t, true) = use_certificate (certificate_of (t.disk server_cert_file)) t

  unfoldable pub init_ssl : Tls → Run (Tls × Outcome)
  init_ssl t =
      if a.ssl_ctx_new
      then (check_and_generate_key_cert pem a
            (record t { live = record t.live { ssl_ctxs = suc t.live.ssl_ctxs }; ssl_ctx = true })
          >>= λ r. load_pair r)
      else ok (record t { ssl_ctx = false }, returned ssl_ctx_creation_failure)
