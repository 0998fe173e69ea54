-- ===== src/Handshake/Words.antt =====
-- How the client reads the payload `name|uid`.
use secure_chat.Prelude.{
  Bool, ℕ, ◌≤◌, ◌<◌, ◌≡◌, refl, [], ◌∷◌, ◌++◌, Text, Avoids, length, length-append, ok, lt→ltb,
  arith,
}
use secure_chat.Protocol.Number.{skip_space}
use secure_chat.Protocol.Wire.{delimiter}
use secure_chat.Protocol.Wire.RoundTrip.{scan_set-append}
use secure_chat.Client.{Client}
use secure_chat.Client.Handler.Uid.{word, skip_char, fit, scan_username, assign_uid, store_uid}
use secure_chat.Handshake.{uid_payload, IsBlankless}

word-IsBlankless : (s : Text) → IsBlankless s → word s ≡ s
unfolding word
word-IsBlankless [] b = refl
word-IsBlankless (c ∷ s) (b, bs) = rw (b, word-IsBlankless s bs) refl

skip_space-IsBlankless : (s : Text) → IsBlankless s → skip_space s ≡ s
unfolding skip_space
skip_space-IsBlankless [] b = refl
skip_space-IsBlankless (c ∷ s) (b, bs) = rw b refl

-- What `%s` reads behind the delimiter.
pub word-skip_char : (s : Text) → IsBlankless s → word (skip_space (skip_char (delimiter ∷ s))) ≡ s
unfolding skip_char
word-skip_char s b = rw (skip_space-IsBlankless s b) (word-IsBlankless s b)

pub fit-ok : (size : ℕ) (s : Text) → 0 < length s → length s < size → fit size s ≡ ok s
unfolding fit
fit-ok size [] p h = absurd (omega arith)
fit-ok size (c ∷ s) p h = rw (lt→ltb (length (c ∷ s)) size h) refl

-- The name and the UID of the payload are read as they were written.
pub store_uid-payload :
    (malloc : Bool) (cl : Client) (name uid : Text)
    → Avoids delimiter name
    → 0 < length name
    → length name ≤ 15
    → IsBlankless uid
    → 0 < length uid
    → length uid ≤ 128
    → store_uid malloc cl (uid_payload name uid) ≡ assign_uid malloc cl name uid
unfolding store_uid scan_username
store_uid-payload malloc cl name uid clean some_name short_name solid some_uid short_uid =
    let split =
      scan_set-append delimiter (length (uid_payload name uid)) name uid clean some_name
        (omega (arith, length-append name (delimiter ∷ uid))) in
    rw (split, fit-ok 17 name some_name (omega arith), word-skip_char uid solid)
      (rw (fit-ok 129 uid some_uid (omega arith)) refl)

pub avoids_newline : (s : Text) → IsBlankless s → Avoids b'\n' s
avoids_newline [] b = tt
avoids_newline (c ∷ s) (b, bs) = (ground (arith, b), avoids_newline s bs)

pub Avoids-append : (stop : ℕ) (s t : Text) → Avoids stop s → Avoids stop t → Avoids stop (s ++ t)
Avoids-append stop [] t h h' = h'
Avoids-append stop (c ∷ s) t (h, hs) h' = (h, Avoids-append stop s t hs h')
