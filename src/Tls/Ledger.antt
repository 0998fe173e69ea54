-- ===== src/Tls/Ledger.antt =====
-- What the making of a key and of a certificate leaves allocated.
use secure_chat.Prelude.{
  ℕ, suc, ◌≡◌, refl, inl, inr, Bool-cases, true, Option, Option-cases, none, some, if◌then◌else◌,
  Text, Returns,
}
use secure_chat.Tls.{
  Pem, Answers, Live, Tls, one_less, free_key_ctx, free_key, free_x509, close_file, open_file,
  new_key, store_file,
}
use secure_chat.Tls.Generate.{
  write_key_file, keep_key, generate_rsa_key, write_certificate_file, sign_certificate,
  read_key_file, new_certificate, generate_self_signed_certificate,
}

module _ (pem : Pem) (a : Answers) where
  generate_rsa_key-returns :
      (key_file : Text) (t : Tls)
      → Returns (generate_rsa_key pem a key_file t) (λ r. r.0.live ≡ t.live)
  unfolding generate_rsa_key keep_key write_key_file free_key_ctx free_key close_file open_file
      new_key store_file one_less
  generate_rsa_key-returns key_file t = elim (Bool-cases a.key_ctx_new) [
    | inr bad ↦ rw bad (_, refl, refl)
    | inl has_ctx ↦ elim (Bool-cases a.keygen_init) [
      | inr bad ↦ rw (has_ctx, bad) (_, refl, refl)
      | inl has_init ↦ elim (Bool-cases a.keygen_bits) [
        | inr bad ↦ rw (has_ctx, has_init, bad) (_, refl, refl)
        | inl has_bits ↦ elim (Option-cases a.keygen) [
          | inl bad ↦ rw (has_ctx, has_init, has_bits, bad) (_, refl, refl)
          | inr (k, made) ↦ elim (Bool-cases a.open_key) [
            | inr bad ↦ rw (has_ctx, has_init, has_bits, made, bad) (_, refl, refl)
            | inl good ↦ rw (has_ctx, has_init, has_bits, made, good) (_, refl, refl)
          ]
        ]
      ]
    ]
  ]

  -- The key that generate_self_signed_certificate reads back.
  unfoldable pub key_in : Option Text → Option ℕ
  key_in none = none
  key_in (some bytes) = if a.read_key_file then pem.read_key bytes else none

  -- The certificates that stay allocated, of `n` before.
  unfoldable pub lost_x509s : Option ℕ → ℕ → ℕ
  lost_x509s none n = suc n
  lost_x509s (some k) n = n

  -- What stays allocated behind the certificate: the key of `EVP_PKEY_new`, always, and the certificate
  -- itself where the key cannot be read.
  unfoldable pub leaked : Option Text → Live → Live
  leaked found l = record l {
    keys = if a.key_new then suc l.keys else l.keys;
    x509s = lost_x509s (key_in found) l.x509s;
  }

  read_key_file-leaked :
      (cert_file : Text) (found : Option Text) (t : Tls)
      → a.x509_new ≡ true
      → Returns
          (read_key_file pem a cert_file found (new_certificate pem a t))
          (λ r. r.0.live ≡ leaked found t.live)
  unfolding read_key_file new_certificate sign_certificate write_certificate_file free_key free_x509
      close_file open_file new_key store_file one_less leaked key_in lost_x509s
  read_key_file-leaked cert_file none t has_x509 = rw has_x509 (_, refl, refl)
  read_key_file-leaked cert_file (some bytes) t has_x509 = elim (Bool-cases a.read_key_file) [
    | inr bad ↦ rw (has_x509, bad) (_, refl, refl)
    | inl has_file ↦ elim (Option-cases (pem.read_key bytes)) [
      | inl bad ↦ rw (has_x509, has_file, bad) (_, refl, refl)
      | inr (k, made) ↦ elim (Bool-cases a.sign) [
        | inr bad ↦ rw (has_x509, has_file, made, bad) (_, refl, refl)
        | inl signed ↦ elim (Bool-cases a.open_certificate) [
          | inr bad ↦ rw (has_x509, has_file, made, signed, bad) (_, refl, refl)
          | inl good ↦ rw (has_x509, has_file, made, signed, good) (_, refl, refl)
        ]
      ]
    ]
  ]

  -- The generation of a key returns with everything given back, on every branch. Where `X509_new`
  -- succeeds, that of a certificate returns, too, but it never gives back the key of `EVP_PKEY_new`, and
  -- keeps the certificate where the key file is missing, cannot be opened or holds no key.
  pub generate-leaked :
      (cert_file key_file : Text) (t : Tls)
      → a.x509_new ≡ true
      → Returns (generate_rsa_key pem a key_file t) (λ r. r.0.live ≡ t.live)
        × Returns
            (generate_self_signed_certificate pem a cert_file key_file t)
            (λ r. r.0.live ≡ leaked (t.disk key_file) t.live)
  unfolding generate_self_signed_certificate
  generate-leaked cert_file key_file t has_x509 = (
    generate_rsa_key-returns key_file t,
    read_key_file-leaked cert_file (t.disk key_file) t has_x509,
  )
