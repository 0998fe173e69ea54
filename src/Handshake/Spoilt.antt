-- ===== src/Handshake/Spoilt.antt =====
-- A name that holds the delimiter, which a registration accepts.
use secure_chat.Prelude.{
  Bool, ℕ, ◌≤◌, ◌<◌, ◌≡◌, refl, true, some, [], ◌∷◌, ◌++◌, Text, Avoids, length, length-append,
  fault, out_of_bounds, arith,
}
use mathlib.Core.List.{append_assoc}
use secure_chat.Protocol.Codes.{message_uid}
use secure_chat.Protocol.Create.{Env}
use secure_chat.Protocol.Wire.{Ssl, delimiter, format_message}
use secure_chat.Protocol.Wire.RoundTrip.{scan_set-append}
use secure_chat.Client.{Client, client_default_name}
use secure_chat.Client.Handler.{
  Session, is_code, auth_branch, other_branch, dispatch, is_misaddressed, handle_message,
}
use secure_chat.Client.Handler.Uid.{fit, scan_username, store_uid}
use secure_chat.Client.Receive.{handle_line}
use secure_chat.Protocol.Wire.Sendable.{IsIdentifier, sendable_is_short}
use secure_chat.Handshake.{uid_payload, naming, IsBlankless}
use secure_chat.Handshake.Words.{word-skip_char, fit-ok, avoids_newline, Avoids-append}
use secure_chat.Handshake.Taken.{greeting-IsSendable, handle_line-parsed}

-- The name `first|rest`.
abbrev pub split_name : Text → Text → Text
split_name first rest = first ++ (delimiter ∷ rest)

fit-fault :
    (size : ℕ) (s : Text) → 0 < length s → size ≤ length s → fit size s ≡ fault out_of_bounds
unfolding fit
fit-fault size [] p h = absurd (omega arith)
fit-fault size (c ∷ s) p h = ground (arith, h)

IsBlankless-append : (s t : Text) → IsBlankless s → IsBlankless t → IsBlankless (s ++ t)
IsBlankless-append [] t h h' = h'
IsBlankless-append (c ∷ s) t (h, hs) h' = (h, IsBlankless-append s t hs h')

-- What `%s` reads is longer than the array.
store_uid-fault :
    (malloc : Bool) (cl : Client) (first behind : Text)
    → Avoids delimiter first
    → 0 < length first
    → length first ≤ 15
    → IsBlankless behind
    → 129 ≤ length behind
    → store_uid malloc cl (first ++ (delimiter ∷ behind)) ≡ fault out_of_bounds
unfolding store_uid scan_username
store_uid-fault malloc cl first behind clean some_first short solid long =
    let split =
      scan_set-append delimiter (length (first ++ (delimiter ∷ behind))) first behind clean
        some_first (omega (arith, length-append first (delimiter ∷ behind))) in
    rw (split, fit-ok 17 first some_first (omega arith), word-skip_char behind solid)
      (rw (fit-fault 129 behind (omega (arith, long)) long) refl)

module _ (env : Env) (ssl : Ssl) where
  handle_message-spoilt :
      (id name uid : Text) (s : Session ssl)
      → s.cl.uid ≡ some client_default_name
      → s.cl_state.is_authenticated ≡ true
      → store_uid env.uid_memory s.cl (uid_payload name uid) ≡ fault out_of_bounds
      → handle_message env ssl (record s { msg = naming id name uid }) ≡ fault out_of_bounds
  unfolding handle_message is_misaddressed dispatch auth_branch is_code other_branch
  handle_message-spoilt id name uid s has inside broken = simp (has, inside, broken) refl

  -- A name of at most 15 bytes with the delimiter in it, behind a first byte and with no blank behind it,
  -- and a UID of 128 bytes, as long as a hash: the line with the UID makes the client that was let in
  -- write outside its array of 129 bytes.
  pub handle_line-spoilt :
      (id first rest uid : Text) (s : Session ssl)
      → IsIdentifier env (uid_payload (split_name first rest) uid) id
      → s.cl.uid ≡ some client_default_name
      → s.cl_state.is_authenticated ≡ true
      → Avoids delimiter first
      → Avoids b'\n' first
      → 0 < length first
      → length (split_name first rest) ≤ 15
      → IsBlankless rest
      → IsBlankless uid
      → length uid ≡ 128
      → handle_line env ssl
          (length (format_message (naming id (split_name first rest) uid)))
          (format_message (naming id (split_name first rest) uid))
          s
        ≡ fault out_of_bounds
  handle_line-spoilt id first rest uid s is has inside clean line some_first short solid_rest solid
        long =
      let name = split_name first rest in
      let behind : Text = rest ++ (delimiter ∷ uid) in
      let solid_behind = IsBlankless-append rest (delimiter ∷ uid) solid_rest (refl, solid) in
      let joined = append_assoc first (delimiter ∷ rest) (delimiter ∷ uid) in
      let width = length-append first (delimiter ∷ rest) in
      let whole = length-append name (delimiter ∷ uid) in
      let sent =
        greeting-IsSendable env message_uid id (uid_payload name uid) is (omega arith)
          (omega (arith, whole)) (omega (arith, whole))
          (rw joined (
            Avoids-append b'\n' first (delimiter ∷ behind) line
              (refl, avoids_newline behind solid_behind))) in
      let broken : store_uid env.uid_memory s.cl (uid_payload name uid) ≡ fault out_of_bounds =
        rw joined (
          store_uid-fault env.uid_memory s.cl first behind clean some_first
            (omega (arith, width, short)) solid_behind
            (omega (arith, length-append rest (delimiter ∷ uid)))) in
      rw (handle_line-parsed env ssl (naming id name uid) s sent (sendable_is_short _ sent))
        (handle_message-spoilt id name uid s has inside broken)
