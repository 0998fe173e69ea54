-- ===== src/Tls/Restart/Stuck.antt =====
-- A server that could write only a part of its key or of its certificate, and its later starts.
use secure_chat.Prelude.{
  ℕ, ◌≡◌, refl, ◌⊎◌, inl, inr, Bool, Bool-cases, false, none, some, List, [], ◌∷◌, Text, Returns,
  ◌==◌,
}
use secure_chat.Tls.{
  Disk, Pem, Answers, server_key_file, server_cert_file, one_less, free_ssl, free_ssl_ctx,
  destroy_ssl, close_file, open_file, store_file, file_exists, is_there, ssl_init_success,
}
use secure_chat.Tls.Generate.{
  written, succeeded, read_key_file, sign_certificate, new_certificate,
  generate_self_signed_certificate, check_cert, check_and_generate_key_cert,
}
use secure_chat.Tls.Init.{
  Outcome, returned, exited, give_up, use_certificate, certificate_of, load_pair, init_ssl,
}
use secure_chat.Tls.Restart.{started, starts, IsPem, IsGood}
use secure_chat.Tls.Restart.Installed.{
  generate_rsa_key-good, check_and_generate_key_cert-good, with_ctx,
}

module _ (pem : Pem) where
  -- The first write of the key, or of the certificate, fails and leaves `part`, which OpenSSL cannot
  -- read.
  abbrev pub Spoils : Text → Answers → Type 0
  Spoils part a =
      ((a.write_key ≡ some part) × (pem.read_key part ≡ none))
      ⊎ ((a.write_key ≡ none)
          × (a.write_certificate ≡ some part)
          × (pem.read_certificate part ≡ none))

  -- The files of such a server: a part of a key and no certificate, or a part of a certificate.
  pub data IsStuck (d : Disk) : Type 0 where
    stuck_key :
        (part : Text)
        → d server_key_file ≡ some part
        → pem.read_key part ≡ none
        → d server_cert_file ≡ none
        → IsStuck d
    stuck_certificate :
        (bytes part : Text)
        → d server_key_file ≡ some bytes
        → d server_cert_file ≡ some part
        → pem.read_certificate part ≡ none
        → IsStuck d

  abbrev pub is_success : Outcome → Bool
  is_success (returned code) = code == ssl_init_success
  is_success exited = false

  -- No start succeeds.
  abbrev pub AllFail : List Outcome → Type 0
  AllFail [] = Unit {0}
  AllFail (o ∷ os) = (is_success o ≡ false) × AllFail os

  init_ssl-stuck :
      (a : Answers) (d : Disk)
      → IsStuck d
      → Returns (init_ssl pem a (started d)) (λ r. (r.0.disk ≡ d) × (is_success r.1 ≡ false))
  unfolding init_ssl check_and_generate_key_cert check_cert load_pair use_certificate certificate_of
      give_up destroy_ssl free_ssl free_ssl_ctx one_less file_exists is_there
      generate_self_signed_certificate new_certificate read_key_file sign_certificate close_file
      open_file
  init_ssl-stuck a d (stuck_key part key unread no_cert) = elim (Bool-cases a.ssl_ctx_new) [
    | inr bad ↦ rw bad (_, refl, (refl, refl))
    | inl good ↦ elim (Bool-cases a.read_key_file) [
      | inr bad ↦ simp (good, bad, key, no_cert) (_, refl, (refl, refl))
      | inl found ↦ simp (good, found, key, no_cert, unread) (_, refl, (refl, refl))
    ]
  ]
  init_ssl-stuck a d (stuck_certificate bytes part key cert unread) =
      elim (Bool-cases a.ssl_ctx_new) [
        | inr bad ↦ rw bad (_, refl, (refl, refl))
        | inl good ↦ simp (good, key, cert, unread) (_, refl, (refl, refl))
      ]

  starts-fail :
      (later : List Answers) (d : Disk)
      → IsStuck d
      → Returns (starts pem later d) (λ r. (r.0 ≡ d) × AllFail r.1)
  unfolding starts
  starts-fail [] d stuck = (_, refl, (refl, tt))
  starts-fail (a ∷ later) d stuck =
      let ((t, end), run, (same, bad)) = init_ssl-stuck a d stuck in
      let (r, rest, (kept, fail)) = starts-fail later d stuck in
      simp (run, same, rest) (_, refl, (kept, (bad, fail)))

  init_ssl-Spoils :
      (k : ℕ) (part : Text) (a : Answers) (d : Disk)
      → IsPem pem
      → IsGood k a
      → Spoils part a
      → d server_key_file ≡ none
      → d server_cert_file ≡ none
      → Returns (init_ssl pem a (started d)) (λ r. IsStuck r.0.disk × (is_success r.1 ≡ false))
  unfolding init_ssl check_and_generate_key_cert check_cert load_pair file_exists is_there
      store_file written succeeded use_certificate certificate_of give_up destroy_ssl free_ssl
      free_ssl_ctx one_less
  init_ssl-Spoils k part a d is_pem good (inl (cut, unread)) no_key no_cert =
      let made = generate_rsa_key-good pem k a server_key_file (with_ctx pem d) good in
      simp (good.ssl_ctx_new, no_key, made, cut)
        (_, refl, (stuck_key part refl unread no_cert, refl))
  init_ssl-Spoils k part a d is_pem good (inr (key_done, cut, unread)) no_key no_cert =
      let checked =
        check_and_generate_key_cert-good pem k a (some part) d is_pem good key_done cut no_key
          no_cert in
      simp (good.ssl_ctx_new, checked, unread)
        (_, refl, (stuck_certificate (pem.key_bytes k) part refl refl unread, refl))

  -- OpenSSL reads back what it has written. A server that finds neither file makes a key, and all its
  -- calls succeed but one: the write of the key, or that of the certificate, leaves only a part that
  -- OpenSSL cannot read. Then this start fails, and so does every later one, whatever the calls would
  -- answer: the part stays in its file, and since the file exists it is never made again.
  pub starts-IsStuck :
      (k : ℕ) (part : Text) (a : Answers) (later : List Answers) (d : Disk)
      → IsPem pem
      → IsGood k a
      → Spoils part a
      → d server_key_file ≡ none
      → d server_cert_file ≡ none
      → Returns (starts pem (a ∷ later) d) (λ r. IsStuck r.0 × AllFail r.1)
  unfolding starts
  starts-IsStuck k part a later d is_pem good spoils no_key no_cert =
      let ((t, end), run, (stuck, bad)) =
        init_ssl-Spoils k part a d is_pem good spoils no_key no_cert in
      let (r, rest, (same, fail)) = starts-fail later t.disk stuck in
      simp (run, rest) (_, refl, (rw same stuck, (bad, fail)))
