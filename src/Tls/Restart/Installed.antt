-- ===== src/Tls/Restart/Installed.antt =====
-- A server that makes its key and its certificate, and its later starts.
use secure_chat.Prelude.{
  ℕ, suc, ◌≡◌, refl, ap, Bool, Bool-cases, inl, inr, true, Option, none, some, List, [], ◌∷◌, map,
  if◌then◌else◌, Text, ok, Returns,
}
use secure_chat.Tls.{
  Disk, Pem, Answers, Tls, server_key_file, server_cert_file, one_less, free_key_ctx, free_key,
  free_x509, free_ssl, free_ssl_ctx, destroy_ssl, close_file, open_file, new_key, store_file,
  file_exists, is_there, is_there, ssl_init_success,
}
use secure_chat.Tls.Generate.{
  written, succeeded, write_key_file, keep_key, generate_rsa_key, write_certificate_file,
  sign_certificate, read_key_file, new_certificate, generate_self_signed_certificate, check_cert,
  check_and_generate_key_cert,
}
use secure_chat.Tls.Init.{
  returned, give_up, new_ssl, use_key, use_certificate, certificate_of, load_pair, init_ssl,
}
use secure_chat.Tls.Restart.{started, starts, IsPem, IsGood, IsInstalled, served}

module _ (pem : Pem) where
  init_ssl-served :
      (k : ℕ) (a : Answers) (d : Disk)
      → IsPem pem
      → IsInstalled pem k d
      → Returns (init_ssl pem a (started d)) (λ r. (r.0.disk ≡ d) × (r.1 ≡ served a))
  unfolding init_ssl check_and_generate_key_cert check_cert load_pair use_certificate certificate_of
      use_key new_ssl give_up destroy_ssl free_ssl free_ssl_ctx one_less file_exists is_there served
  init_ssl-served k a d is_pem files = elim (Bool-cases a.ssl_ctx_new) [
    | inr bad ↦ rw bad (_, refl, (refl, refl))
    | inl good ↦ elim (Bool-cases a.ssl_new) [
      | inr bad ↦
          simp (good, bad, files.key, files.certificate, is_pem.certificate k, is_pem.loads k)
            (_, refl, (refl, refl))
      | inl ready ↦
          simp (good, ready, files.key, files.certificate, is_pem.certificate k, is_pem.loads k)
            (_, refl, (refl, refl))
    ]
  ]

  starts-served :
      (k : ℕ) (later : List Answers) (d : Disk)
      → IsPem pem
      → IsInstalled pem k d
      → starts pem later d ≡ ok (d, map served later)
  unfolding starts
  starts-served k [] d is_pem files = refl
  starts-served k (a ∷ later) d is_pem files =
      let ((t, outcome), run, (same, end)) = init_ssl-served k a d is_pem files in
      rw (run, same, starts-served k later d is_pem files, end) refl

  pub generate_rsa_key-good :
      (k : ℕ) (a : Answers) (key_file : Text) (t : Tls)
      → IsGood k a
      → generate_rsa_key pem a key_file t
        ≡ ok (store_file key_file (written a.write_key (pem.key_bytes k)) t, succeeded a.write_key)
  unfolding generate_rsa_key keep_key write_key_file free_key_ctx close_file free_key one_less
      open_file store_file new_key
  generate_rsa_key-good k a key_file t good =
      simp (good.key_ctx_new, good.keygen_init, good.keygen_bits, good.keygen)
        (simp good.open_key refl)

  -- What the making of a certificate leaves: the file, and the key of `EVP_PKEY_new`.
  abbrev pub certified : Text → ℕ → Option Text → Bool → Tls → Tls
  certified cert_file k failure key_new t =
      record (store_file cert_file (written failure (pem.certificate_bytes k)) t) {
        live = record t.live { keys = if key_new then suc t.live.keys else t.live.keys };
      }

  generate_self_signed_certificate-good :
      (k : ℕ) (a : Answers) (cert_file key_file : Text) (t : Tls)
      → IsPem pem
      → IsGood k a
      → t.disk key_file ≡ some (pem.key_bytes k)
      → generate_self_signed_certificate pem a cert_file key_file t
        ≡ ok (certified cert_file k a.write_certificate a.key_new t, true)
  unfolding generate_self_signed_certificate new_certificate free_key free_x509 close_file open_file
      new_key one_less sign_certificate write_certificate_file read_key_file store_file
  generate_self_signed_certificate-good k a cert_file key_file t is_pem good key =
      simp (key, good.x509_new, good.read_key_file, is_pem.key k, good.sign, good.open_certificate)
        refl

  -- The server in front of its files: a context is there.
  abbrev pub with_ctx : Disk → Tls
  with_ctx d = record (started d) {
    live = record (started d).live { ssl_ctxs = 1 };
    ssl_ctx = true;
  }

  -- The check of the files, where neither is there and the key could be written.
  pub check_and_generate_key_cert-good :
      (k : ℕ) (a : Answers) (failure : Option Text) (d : Disk)
      → IsPem pem
      → IsGood k a
      → a.write_key ≡ none
      → a.write_certificate ≡ failure
      → d server_key_file ≡ none
      → d server_cert_file ≡ none
      → check_and_generate_key_cert pem a (with_ctx d)
        ≡ ok (
          certified server_cert_file k failure a.key_new
              (store_file server_key_file (pem.key_bytes k) (with_ctx d)),
          true,
        )
  unfolding check_and_generate_key_cert check_cert file_exists is_there store_file written succeeded
  check_and_generate_key_cert-good k a failure d is_pem good key_done e no_key no_cert =
      let made = generate_rsa_key-good k a server_key_file (with_ctx d) good in
      let stored : Tls = store_file server_key_file (pem.key_bytes k) (with_ctx d) in
      let signed =
        generate_self_signed_certificate-good k a server_cert_file server_key_file stored is_pem
          good refl in
      simp (no_key, made, key_done, no_cert, signed)
        (ap (λ w. let t : Tls = certified server_cert_file k w a.key_new stored in ok (t, true)) e)

  init_ssl-installs :
      (k : ℕ) (a : Answers) (d : Disk)
      → IsPem pem
      → IsGood k a
      → a.write_key ≡ none
      → a.write_certificate ≡ none
      → d server_key_file ≡ none
      → d server_cert_file ≡ none
      → Returns
          (init_ssl pem a (started d))
          (λ r. IsInstalled pem k r.0.disk × (r.1 ≡ returned ssl_init_success))
  unfolding init_ssl load_pair use_certificate certificate_of use_key new_ssl store_file written
  init_ssl-installs k a d is_pem good key_done cert_done no_key no_cert =
      let checked =
        check_and_generate_key_cert-good k a none d is_pem good key_done cert_done no_key no_cert in
      simp (good.ssl_ctx_new, checked, is_pem.certificate k, is_pem.loads k, good.ssl_new)
        (_, refl, (record { key = refl; certificate = refl }, refl))

  -- OpenSSL reads back what it has written. A server that finds neither file makes the key `k`, and all
  -- its calls succeed: it starts, and leaves the key and its certificate. However many times it is
  -- started again, and whatever the calls that make a key or a certificate would answer then, the files
  -- stay as they are, and each start succeeds unless `SSL_CTX_new` or `SSL_new` fails.
  pub starts-IsInstalled :
      (k : ℕ) (a : Answers) (later : List Answers) (d : Disk)
      → IsPem pem
      → IsGood k a
      → a.write_key ≡ none
      → a.write_certificate ≡ none
      → d server_key_file ≡ none
      → d server_cert_file ≡ none
      → Returns
          (starts pem (a ∷ later) d)
          (λ r. IsInstalled pem k r.0 × (r.1 ≡ returned ssl_init_success ∷ map served later))
  unfolding starts
  starts-IsInstalled k a later d is_pem good key_done cert_done no_key no_cert =
      let ((t, end), run, (files, e)) =
        init_ssl-installs k a d is_pem good key_done cert_done no_key no_cert in
      simp (run, starts-served k later t.disk is_pem files, e) (_, refl, (files, refl))
