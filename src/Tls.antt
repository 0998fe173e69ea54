-- ===== src/Tls.antt =====
-- The TLS side of the server, server/src/server_openssl.c: the key and the certificate that it makes
-- for itself, and the context and the SSL object that stand on them.
pub mod Generate
pub mod Init
pub mod Restart
pub mod Ledger
use secure_chat.Prelude.{
  ℕ, zero, suc, Bool, true, false, Option, none, some, if◌then◌else◌, Text, codes, text_eq, Run, ok,
  fault, bad_pointer, ◌>>=◌,
}

-- What a file of that name holds; `none` where there is no such file.
abbrev pub Disk : Type 0
Disk = Text → Option Text

-- What OpenSSL writes for a key and for the certificate that a key has signed, and what it reads from
-- such bytes: the key, the key of a certificate, and whether a key loads next to a certificate of that
-- key. Keys are numbers.
pub record Pem : Type 0 where
  pub key_bytes : ℕ → Text
  pub certificate_bytes : ℕ → Text
  pub read_key : Text → Option ℕ
  pub read_certificate : Text → Option ℕ
  pub key_loads : ℕ → Text → Bool

-- What the calls answer in one start of the server. `keygen` is the new key; a failed `write_key` or
-- `write_certificate` is what it left in the file.
pub record Answers : Type 0 where
  pub ssl_ctx_new : Bool
  pub key_ctx_new : Bool
  pub keygen_init : Bool
  pub keygen_bits : Bool
  pub keygen : Option ℕ
  pub open_key : Bool
  pub write_key : Option Text
  pub key_new : Bool
  pub x509_new : Bool
  pub read_key_file : Bool
  pub sign : Bool
  pub open_certificate : Bool
  pub write_certificate : Option Text
  pub ssl_new : Bool

-- How many objects of each kind are allocated.
pub record Live : Type 0 where
  pub key_ctxs : ℕ
  pub keys : ℕ
  pub x509s : ℕ
  pub files : ℕ
  pub ssl_ctxs : ℕ
  pub ssls : ℕ

-- The files, what is allocated, and whether the two pointers of `server` are set.
pub record Tls : Type 0 where
  pub disk : Disk
  pub live : Live
  pub ssl_ctx : Bool
  pub ssl : Bool

abbrev pub server_key_file : Text
server_key_file = codes "server.key"

abbrev pub server_cert_file : Text
server_cert_file = codes "server.crt"

abbrev pub ssl_init_success : ℕ
ssl_init_success = 4000

abbrev pub ssl_ctx_creation_failure : ℕ
ssl_ctx_creation_failure = 4001

abbrev pub certificate_load_failure : ℕ
certificate_load_failure = 4002

abbrev pub private_key_load_failure : ℕ
private_key_load_failure = 4003

abbrev pub ssl_object_failure : ℕ
ssl_object_failure = 4004

unfoldable pub store_file : Text → Text → Tls → Tls
store_file name bytes t = record t { disk = λ f. if text_eq f name then some bytes else t.disk f }

-- One object less; there is none to free where the count is 0.
unfoldable pub one_less : ℕ → Run ℕ
one_less zero = fault bad_pointer
one_less (suc n) = ok n

unfoldable pub free_key_ctx : Tls → Run Tls
free_key_ctx t =
    one_less t.live.key_ctxs >>= λ n. ok (record t { live = record t.live { key_ctxs = n } })

unfoldable pub free_key : Tls → Run Tls
free_key t = one_less t.live.keys >>= λ n. ok (record t { live = record t.live { keys = n } })

unfoldable pub free_x509 : Tls → Run Tls
free_x509 t = one_less t.live.x509s >>= λ n. ok (record t { live = record t.live { x509s = n } })

unfoldable pub close_file : Tls → Run Tls
close_file t = one_less t.live.files >>= λ n. ok (record t { live = record t.live { files = n } })

unfoldable pub open_file : Tls → Tls
open_file t = record t { live = record t.live { files = suc t.live.files } }

unfoldable pub new_key : Tls → Tls
new_key t = record t { live = record t.live { keys = suc t.live.keys } }

-- `stat` finds the file.
unfoldable pub is_there : Option Text → Bool
is_there none = false
is_there (some bytes) = true

unfoldable pub file_exists : Disk → Text → Bool
file_exists d name = is_there (d name)

-- The pointers stay as they are.
unfoldable pub free_ssl : Tls → Run Tls
free_ssl t =
    if t.ssl
    then (one_less t.live.ssls >>= λ n. ok (record t { live = record t.live { ssls = n } }))
    else ok t

unfoldable pub free_ssl_ctx : Tls → Run Tls
free_ssl_ctx t =
    if t.ssl_ctx
    then (one_less t.live.ssl_ctxs >>= λ n. ok (record t { live = record t.live { ssl_ctxs = n } }))
    else ok t

unfoldable pub destroy_ssl : Tls → Run Tls
destroy_ssl t = free_ssl t >>= λ t1. free_ssl_ctx t1
