-- ===== src/Cli/Split.antt =====
-- How srv_exec_line splits a line.
use secure_chat.Prelude.{
  ℕ, zero, suc, ◌+◌, ◌≤◌, ◌<◌, ◌≡◌, refl, sym, ◌∙◌, ap, ◌==◌, leb, lt→ltb, Bool, true, false, none,
  some, List, [], ◌∷◌, ◌++◌, length, length-append, inl, inr, Bool-cases, Text, ok, arith, Avoids,
}
use mathlib.Core.List.{append-nil, append_assoc}
use secure_chat.Cli.{
  srv_bufsize, srv_delim, skip_blanks, take_word, first_word, strtok, value, Tokens, store_token,
  grow, token_loop, terminated, tokenize,
}

-- A text with no blank that is not empty.
abbrev pub IsWord : Text → Type 0
IsWord w = (0 < length w) × Avoids srv_delim w

abbrev pub AllWords : List Text → Type 0
AllWords [] = Unit {0}
AllWords (w ∷ ws) = IsWord w × AllWords ws

-- The words with one blank between them.
abbrev pub join : List Text → Text
join [] = []
join (w ∷ []) = w
join (w ∷ (v ∷ ws)) = w ++ (srv_delim ∷ join (v ∷ ws))

take_word-end : (w : Text) → Avoids srv_delim w → take_word w ≡ (w, [])
unfolding take_word
take_word-end [] h = refl
take_word-end (c ∷ w) (other, h) = rw (other, take_word-end w h) refl

take_word-blank : (w s : Text) → Avoids srv_delim w → take_word (w ++ (srv_delim ∷ s)) ≡ (w, s)
unfolding take_word
take_word-blank [] s h = refl
take_word-blank (c ∷ w) s (other, h) = rw (other, take_word-blank w s h) refl

skip_blanks-word : (c : ℕ) (s : Text) → (c == srv_delim) ≡ false → skip_blanks (c ∷ s) ≡ c ∷ s
unfolding skip_blanks
skip_blanks-word c s other = rw other refl

-- `strtok` takes the first word off and leaves the others.
strtok-nil : strtok [] ≡ none
unfolding strtok skip_blanks first_word
strtok-nil = refl

strtok-join : (w : Text) (ws : List Text) → IsWord w → strtok (join (w ∷ ws)) ≡ some (w, join ws)
unfolding strtok first_word
strtok-join [] ws (some_byte, h) = absurd (omega arith)
strtok-join (c ∷ w) [] (some_byte, (other, h)) =
    rw (skip_blanks-word c w other) (rw (take_word-end (c ∷ w) (other, h)) refl)
strtok-join (c ∷ w) (v ∷ ws) (some_byte, (other, h)) =
    rw (skip_blanks-word c (w ++ (srv_delim ∷ join (v ∷ ws))) other)
      (rw (take_word-blank (c ∷ w) (join (v ∷ ws)) (other, h)) refl)

pub length-join : (ws : List Text) → AllWords ws → length ws ≤ length (join ws)
length-join [] h = omega arith
length-join (w ∷ []) ((some_byte, h), hs) = omega arith
length-join (w ∷ (v ∷ ws)) ((some_byte, h), hs) =
    omega (arith, length-join (v ∷ ws) hs, length-append w (srv_delim ∷ join (v ∷ ws)))

pub store_token-room :
    (t : Text) (a : Tokens)
    → length a.tokens < a.size
    → store_token t a ≡ ok (record a { tokens = a.tokens ++ (t ∷ []) })
unfolding store_token
store_token-room t a room = rw (lt→ltb (length a.tokens) a.size room) refl

pub token_loop-none :
    (grows : ℕ → Bool) (fuel : ℕ) (a : Tokens) → token_loop grows fuel none a ≡ ok (value a)
unfolding token_loop
token_loop-none grows zero a = refl
token_loop-none grows (suc fuel) a = refl

module _ (grows : ℕ → Bool) (memory : (n : ℕ) → grows n ≡ true) where
  grow-room :
      (a : Tokens)
      → length a.tokens ≤ a.size
      → (c : Tokens) × (grow grows a ≡ value c) × (c.tokens ≡ a.tokens) × (length c.tokens < c.size)
  unfolding grow
  grow-room a h = elim (Bool-cases (leb a.size (length a.tokens))) [
    | inl full ↦ (
      record a { size = a.size + srv_bufsize },
      rw (full, memory (a.size + srv_bufsize)) refl,
      refl,
      ground arith,
    )
    | inr free ↦ (a, rw free refl, refl, ground arith)
  ]

  token_loop-join :
      (ws : List Text) (fuel : ℕ) (a : Tokens)
      → AllWords ws
      → length ws ≤ fuel
      → length a.tokens < a.size
      → (c : Tokens) × (token_loop grows fuel (strtok (join ws)) a ≡ ok (value c))
        × (c.tokens ≡ a.tokens ++ ws)
        × (length c.tokens < c.size)
  unfolding token_loop
  token_loop-join [] fuel a h enough room =
      (a, rw strtok-nil (token_loop-none grows fuel a), sym (append-nil a.tokens), room)
  token_loop-join (w ∷ ws) zero a h enough room = absurd (omega arith)
  token_loop-join (w ∷ ws) (suc fuel) a (h, hs) enough room =
      let b : Tokens = record a { tokens = a.tokens ++ (w ∷ []) } in
      let (c, grown, same, free) = grow-room b (omega (arith, length-append a.tokens (w ∷ []))) in
      let (d, run, all, left) = token_loop-join ws fuel c hs (omega arith) free in
      (
        d,
        rw (strtok-join w ws h) (rw (store_token-room w a room) (rw grown run)),
        all ∙ ap (λ xs. xs ++ ws) same ∙ append_assoc a.tokens (w ∷ []) ws,
        left,
      )

  -- Words with one blank between them, however many they are, are the tokens of their line: no token is
  -- stored behind the array.
  pub tokenize-join : (ws : List Text) → AllWords ws → tokenize grows true (join ws) ≡ ok (value ws)
  unfolding tokenize terminated
  tokenize-join ws h =
      let start : Tokens = record { tokens = []; size = srv_bufsize } in
      let (c, run, all, left) =
        token_loop-join ws (length (join ws)) start h (length-join ws h) (omega arith) in
      rw run (rw (lt→ltb (length c.tokens) c.size left) (rw all refl))
