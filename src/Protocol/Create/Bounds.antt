-- ===== src/Protocol/Create/Bounds.antt =====
-- The messages that `create_message` builds fit the arrays of `message`.
use secure_chat.Prelude.{
  ℕ, ◌%◌, ◌^◌, ◌≤◌, ◌<◌, ◌≡◌, refl, some, ltb, inl, inr, Bool-cases, Option-cases, arith, Text,
  length, length-take, take_all, snprintf, lt→ltb, ltb→lt, subst, out_of_bounds, ok-injective, Run,
  ok, fault, ◌>>=◌,
}
use secure_chat.Protocol.{Message, hash_hex_output_length}
use secure_chat.Protocol.Number.{ℤ}
use secure_chat.Protocol.Hash.{IsSha512, get_hash, length-get_hash}
use secure_chat.Protocol.Create.{
  Arg, text, Env, read, clear, terminate, fill, uid_before_hash, build, create_in, create_message,
  message_creation_success,
}

-- Every string of the message fits its array with its NUL, and the length field is the length of
-- the payload.
pub record IsSized (m : Message) : Type 0 where
  pub uid : length m.message_uid ≤ 128
  pub sender : length m.sender_uid ≤ 128
  pub recipient : length m.recipient_uid ≤ 128
  pub payload : length m.payload < 2048
  pub counted : m.payload_length ≡ length m.payload

-- The message that a successful call builds.
abbrev pub built : Text → ℤ → Text → Text → Text → Message
built uid type s r p = record {
  message_uid = uid;
  type = type;
  sender_uid = snprintf hash_hex_output_length s;
  recipient_uid = snprintf hash_hex_output_length r;
  payload_length = length p;
  payload = p;
}

terminate-fill :
    (m : Message) (uid : Text) (type : ℤ) (s r p : Text)
    → length uid ≤ 128
    → length p < 2048
    → terminate (fill m uid type (text s) (text r) (text p)) ≡ ok (built uid type s r p)
unfolding terminate fill
terminate-fill m uid type s r p u h =
    let e : length p % 2 ^ 32 ≡ length p = omega arith in
    rw (
      e,
      take_all 2047 p (omega arith),
      take_all (length p) p (omega arith),
      take_all 128 uid u,
      lt→ltb _ 2048 h,
    )

pub build-built :
    (env : Env) (m : Message) (type : ℤ) (s r p uid : Text)
    → get_hash env.evp (uid_before_hash env p) ≡ some uid
    → length uid ≤ 128
    → length p < 2048
    → build env m type (text s) (text r) (text p)
      ≡ ok (built uid type s r p, message_creation_success)
unfolding build
build-built env m type s r p uid h u l =
    rw (h, build) (rw (lt→ltb (length uid) 129 (omega arith), terminate-fill m uid type s r p u l))

-- With a hash, identifiers that pass the length test and a payload of 1 to 2047 bytes the call
-- succeeds: it stores the arguments, cut to the arrays, whatever the message held before.
pub create_message-built :
    (env : Env) (m : Message) (type : ℤ) (s r p uid : Text)
    → get_hash env.evp (uid_before_hash env p) ≡ some uid
    → length uid ≤ 128
    → length s ≤ 129
    → length r ≤ 129
    → 0 < length p
    → length p < 2048
    → create_message env (some m) type (text s) (text r) (text p)
      ≡ ok (some (built uid type s r p), message_creation_success)
unfolding create_message create_in
create_message-built env m type s r p uid hash hu hs hr h0 hp =
    let made = build-built env (clear m) type s r p uid hash hu hp in ground arith

pub built-IsSized :
    (uid : Text) (type : ℤ) (s r p : Text)
    → length uid ≤ 128
    → length p < 2048
    → IsSized (built uid type s r p)
built-IsSized uid type s r p hu hp = omega (arith, length-take 128 s, length-take 128 r)

-- Where the call succeeds, the arrays hold what was stored, and the payload and its length are the argument's.
abbrev Stored : ℤ → Text → Message → Type 0
Stored type p m = IsSized m × (m.payload ≡ p) × (m.type ≡ type)

-- What the two identifiers are when they are stored.
abbrev stored_sender : Message → Text → ℤ → Arg → Text
stored_sender m uid type sender =
    read (record m { message_uid = snprintf hash_hex_output_length uid; type = type }) sender

abbrev stored_recipient : Message → Text → ℤ → Arg → Arg → Text
stored_recipient m uid type sender recipient =
    read
      (record m {
        message_uid = snprintf hash_hex_output_length uid;
        type = type;
        sender_uid = snprintf hash_hex_output_length (stored_sender m uid type sender);
      })
      recipient

pub fill-text :
    (m : Message) (uid : Text) (type : ℤ) (sender recipient : Arg) (p : Text)
    → fill m uid type sender recipient (text p)
      ≡ fill m uid type
          (text (stored_sender m uid type sender))
          (text (stored_recipient m uid type sender recipient))
          (text p)
unfolding fill
fill-text m uid type sender recipient p = refl

-- A payload that fills the array pushes the NUL behind it.
pub terminate-fault :
    (m : Message) (uid : Text) (type : ℤ) (sender recipient : Arg) (p : Text)
    → length p ≡ 2048
    → terminate (fill m uid type sender recipient (text p)) ≡ fault out_of_bounds
unfolding terminate fill
terminate-fault m uid type sender recipient p e = rw e refl

terminate-Stored :
    (m m' : Message) (uid : Text) (type : ℤ) (sender recipient : Arg) (p : Text)
    → length uid ≤ 128
    → length p ≤ 2048
    → terminate (fill m uid type sender recipient (text p)) ≡ ok m'
    → Stored type p m'
terminate-Stored m m' uid type sender recipient p u h e = elim (Bool-cases (ltb (length p) 2048)) [
  | inl fits ↦
      let lt : length p < 2048 = ltb→lt (length p) 2048 fits in
      let s = stored_sender m uid type sender in
      let r = stored_recipient m uid type sender recipient in
      let made = terminate-fill m uid type s r p u lt in
      let same : ok (built uid type s r p) ≡ ok m' = cc (fill-text m uid type sender recipient p) in
      subst (Stored type p) (ok-injective same) (built-IsSized uid type s r p u lt, refl, refl)
  | inr full ↦
      let eq : length p ≡ 2048 = ground arith in
      let bad = terminate-fault m uid type sender recipient p eq in cc
]

abbrev with_success : Run Message → Run (Message × ℕ)
with_success r = r >>= λ m'. ok (m', message_creation_success)

with_success-ok :
    (r : Run Message) {m' : Message}
    → with_success r ≡ ok (m', message_creation_success)
    → r ≡ ok m'
with_success-ok (ok m) e = cc
with_success-ok (fault f) e = cc

build-Stored :
    (env : Env) (m m' : Message) (type : ℤ) (sender recipient : Arg) (p : Text)
    → IsSha512 env.evp
    → length p ≤ 2048
    → build env m type sender recipient (text p) ≡ ok (m', message_creation_success)
    → Stored type p m'
unfolding build
build-Stored env m m' type sender recipient p sha h e =
    elim (Option-cases (get_hash env.evp (uid_before_hash env p))) [
      | inl missing ↦ ground arith
      | inr (uid, found) ↦
          let width = length-get_hash env.evp (uid_before_hash env p) uid sha found in
          let fits = lt→ltb (length uid) 129 (omega arith) in
          let e' : with_success (terminate (fill m uid type sender recipient (text p)))
              ≡ ok (m', message_creation_success) =
            (rw (found, build, fits) at e) in
          terminate-Stored m m' uid type sender recipient p (omega arith) h
            (with_success-ok (terminate (fill m uid type sender recipient (text p))) e')
    ]

-- Whatever the identifiers are, fields of the message itself included, a successful call leaves
-- strings that fit their arrays, the payload and the type of the arguments, and the length of the
-- payload in its field.
pub create_message-IsSized :
    (env : Env) (m m' : Message) (type : ℤ) (sender recipient : Arg) (p : Text)
    → IsSha512 env.evp
    → create_message env (some m) type sender recipient (text p)
      ≡ ok (some m', message_creation_success)
    → IsSized m' × (m'.payload ≡ p) × (m'.type ≡ type)
unfolding create_message create_in
create_message-IsSized env m m' type sender recipient p sha e =
    ground (arith, build-Stored env (clear m) m' type sender recipient p sha)
