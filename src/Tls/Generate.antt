-- ===== src/Tls/Generate.antt =====
-- The key and the certificate of the server: generate_rsa_key, generate_self_signed_certificate and
-- check_and_generate_key_cert of server/src/server_openssl.c.
use secure_chat.Prelude.{
  ℕ, suc, Bool, true, false, not, Option, none, some, if◌then◌else◌, Text, Run, ok, fault,
  null_pointer, ◌>>=◌,
}
use secure_chat.Tls.{
  Pem, Answers, Tls, server_key_file, server_cert_file, store_file, free_key_ctx, free_key,
  free_x509, close_file, open_file, new_key, file_exists,
}

-- What a write of PEM leaves: its bytes, or those of a write that failed.
unfoldable pub written : Option Text → Text → Text
written none bytes = bytes
written (some part) bytes = part

unfoldable pub succeeded : Option Text → Bool
succeeded none = true
succeeded (some part) = false

module _ (pem : Pem) (a : Answers) where
  -- Behind `EVP_PKEY_keygen`; `fopen` empties the file.
  unfoldable pub write_key_file : Text → ℕ → Tls → Run (Tls × Bool)
  write_key_file key_file k t =
      if a.open_key
      then (do
        t1 ← close_file (store_file key_file (written a.write_key (pem.key_bytes k)) (open_file t))
        t2 ← free_key t1
        t3 ← free_key_ctx t2
        ok (t3, succeeded a.write_key))
      else (do t1 ← free_key t; t2 ← free_key_ctx t1; ok (t2, false))

  unfoldable pub keep_key : Text → Option ℕ → Tls → Run (Tls × Bool)
  keep_key key_file none t = free_key_ctx t >>= λ t1. ok (t1, false)
  keep_key key_file (some k) t = write_key_file key_file k (new_key t)

  -- `true` where it returns 0.
  unfoldable pub generate_rsa_key : Text → Tls → Run (Tls × Bool)
  generate_rsa_key key_file t =
      if a.key_ctx_new
      then (let t1 : Tls = record t { live = record t.live { key_ctxs = suc t.live.key_ctxs } } in
          if not a.keygen_init
          then (free_key_ctx t1 >>= λ t2. ok (t2, false))
          else if not a.keygen_bits
          then (free_key_ctx t1 >>= λ t2. ok (t2, false))
          else keep_key key_file a.keygen t1)
      else ok (t, false)

  -- Behind `X509_sign`: the result of the write is not looked at.
  unfoldable pub write_certificate_file : Text → ℕ → Tls → Run (Tls × Bool)
  write_certificate_file cert_file k t =
      if a.open_certificate
      then (do
        t1 ← close_file (
            store_file cert_file (written a.write_certificate (pem.certificate_bytes k))
              (open_file t))
        t2 ← free_key t1
        t3 ← free_x509 t2
        ok (t3, true))
      else (do t1 ← free_key t; t2 ← free_x509 t1; ok (t2, false))

  -- Behind `PEM_read_PrivateKey`; the setters work on the certificate, which may be NULL.
  unfoldable pub sign_certificate : Text → Option ℕ → Tls → Run (Tls × Bool)
  sign_certificate cert_file none t = ok (t, false)
  sign_certificate cert_file (some k) t =
      if not a.x509_new
      then fault null_pointer
      else if a.sign
      then write_certificate_file cert_file k (new_key t)
      else (do t1 ← free_key (new_key t); t2 ← free_x509 t1; ok (t2, false))

  unfoldable pub read_key_file : Text → Option Text → Tls → Run (Tls × Bool)
  read_key_file cert_file none t = ok (t, false)
  read_key_file cert_file (some bytes) t =
      if a.read_key_file
      then (close_file (open_file t) >>= λ t1. sign_certificate cert_file (pem.read_key bytes) t1)
      else ok (t, false)

  -- `EVP_PKEY_new` and `X509_new`
  unfoldable pub new_certificate : Tls → Tls
  new_certificate t = record t {
    live = record t.live {
      keys = if a.key_new then suc t.live.keys else t.live.keys;
      x509s = if a.x509_new then suc t.live.x509s else t.live.x509s;
    };
  }

  unfoldable pub generate_self_signed_certificate : Text → Text → Tls → Run (Tls × Bool)
  generate_self_signed_certificate cert_file key_file t =
      read_key_file cert_file (t.disk key_file) (new_certificate t)

  -- `false` where it calls `exit`.
  unfoldable pub check_cert : Tls × Bool → Run (Tls × Bool)
  check_cert (t, false) = ok (t, false)
  check_cert (t, true) =
      if not (file_exists t.disk server_cert_file)
      then generate_self_signed_certificate server_cert_file server_key_file t
      else ok (t, true)

  unfoldable pub check_and_generate_key_cert : Tls → Run (Tls × Bool)
  check_and_generate_key_cert t =
      if not (file_exists t.disk server_key_file)
      then (generate_rsa_key server_key_file t >>= λ r. check_cert r)
      else check_cert (t, true)
