-- ===== src/Tests/Tls.antt =====
-- Examples of the theorems on the key and the certificate of the server.
use secure_chat.Prelude.{
  ℕ, ◌≡◌, refl, ◌==◌, inl, true, false, Bool, Option, none, some, List, [], ◌∷◌, map, if◌then◌else◌,
  Text, codes, Returns, arith,
}
use secure_chat.Tls.{Disk, Pem, Answers, server_key_file, server_cert_file, ssl_init_success}
use secure_chat.Tls.Generate.{generate_rsa_key, generate_self_signed_certificate}
use secure_chat.Tls.Init.{returned}
use secure_chat.Tls.Ledger.{leaked, generate-leaked}
use secure_chat.Tls.Restart.{started, starts, IsPem, IsGood, IsInstalled, served}
use secure_chat.Tls.Restart.Installed.{starts-IsInstalled}
use secure_chat.Tls.Restart.Stuck.{IsStuck, AllFail, starts-IsStuck}

-- A key is a K and its number, a certificate a C.
abbrev marked : ℕ → Text → Option ℕ
marked mark (c ∷ k ∷ []) = if c == mark then some k else none
marked mark s = none

abbrev loads : ℕ → Text → Bool
loads k (c ∷ n ∷ []) = k == n
loads k s = false

abbrev pub test_pem : Pem
test_pem = record {
  key_bytes = λ k. b'K' ∷ k ∷ [];
  certificate_bytes = λ k. b'C' ∷ k ∷ [];
  read_key = marked b'K';
  read_certificate = marked b'C';
  key_loads = loads;
}

test_pem-IsPem : IsPem test_pem
test_pem-IsPem = record { key = λ k. refl; certificate = λ k. refl; loads = λ k. ground arith }

abbrev pub good_answers : Answers
good_answers = record {
  ssl_ctx_new = true;
  key_ctx_new = true;
  keygen_init = true;
  keygen_bits = true;
  keygen = some 7;
  open_key = true;
  write_key = none;
  key_new = true;
  x509_new = true;
  read_key_file = true;
  sign = true;
  open_certificate = true;
  write_certificate = none;
  ssl_new = true;
}

good_answers-IsGood : IsGood 7 good_answers
good_answers-IsGood = record {
  ssl_ctx_new = refl;
  key_ctx_new = refl;
  keygen_init = refl;
  keygen_bits = refl;
  keygen = refl;
  open_key = refl;
  x509_new = refl;
  read_key_file = refl;
  sign = refl;
  open_certificate = refl;
  ssl_new = refl;
}

abbrev pub no_files : Disk
no_files f = none

-- A later start that would make another key, and one where `SSL_new` fails.
abbrev later : List Answers
later = record good_answers { keygen = some 8 } ∷ record good_answers { ssl_new = false } ∷ []

starts-IsInstalled_example :
    Returns
      (starts test_pem (good_answers ∷ later) no_files)
      (λ r. IsInstalled test_pem 7 r.0 × (r.1 ≡ returned ssl_init_success ∷ map served later))
starts-IsInstalled_example =
    starts-IsInstalled test_pem 7 good_answers later no_files test_pem-IsPem good_answers-IsGood
      refl refl refl refl

-- The disk is full while the key is written.
abbrev full_disk : Answers
full_disk = record good_answers { write_key = some (codes "-----BEGIN") }

full_disk-IsGood : IsGood 7 full_disk
full_disk-IsGood = record {
  ssl_ctx_new = refl;
  key_ctx_new = refl;
  keygen_init = refl;
  keygen_bits = refl;
  keygen = refl;
  open_key = refl;
  x509_new = refl;
  read_key_file = refl;
  sign = refl;
  open_certificate = refl;
  ssl_new = refl;
}

starts-IsStuck_example :
    Returns
      (starts test_pem (full_disk ∷ good_answers ∷ []) no_files)
      (λ r. IsStuck test_pem r.0 × AllFail test_pem r.1)
starts-IsStuck_example =
    starts-IsStuck test_pem 7 (codes "-----BEGIN") full_disk (good_answers ∷ []) no_files
      test_pem-IsPem full_disk-IsGood (inl (refl, refl)) refl refl

generate-leaked_example :
    Returns
      (generate_rsa_key test_pem good_answers server_key_file (started no_files))
      (λ r. r.0.live ≡ (started no_files).live)
    × Returns
        (generate_self_signed_certificate test_pem good_answers server_cert_file server_key_file
          (started no_files))
        (λ r. r.0.live ≡ leaked test_pem good_answers none (started no_files).live)
generate-leaked_example =
    generate-leaked test_pem good_answers server_cert_file server_key_file (started no_files) refl
