-- ===== src/Cli/Ends.antt =====
-- The splitting of srv_exec_line ends, whatever the line is.
use secure_chat.Prelude.{
  ℕ, zero, suc, ◌+◌, ◌≤◌, ◌<◌, ◌≡◌, refl, ◌==◌, leb, lt→ltb, Bool, true, false, Option, none, some,
  [], ◌∷◌, ◌++◌, length, length-append, inl, inr, Bool-cases, Text, Run, Returns, arith,
}
use secure_chat.Cli.{
  srv_bufsize, srv_delim, skip_blanks, take_word, first_word, strtok, Ended, and_then, unfinished,
  exits, value, Tokens, grow, token_loop, terminated, tokenize,
}
use secure_chat.Cli.Split.{store_token-room, token_loop-none}

length-take_word : (s : Text) → length (take_word s).1 ≤ length s
unfolding take_word
length-take_word [] = omega arith
length-take_word (c ∷ s) = elim (Bool-cases (c == srv_delim)) [
  | inl blank ↦ rw blank (omega arith)
  | inr other ↦ rw other (omega (arith, length-take_word s))
]

length-skip_blanks : (s : Text) → length (skip_blanks s) ≤ length s
unfolding skip_blanks
length-skip_blanks [] = omega arith
length-skip_blanks (c ∷ s) = elim (Bool-cases (c == srv_delim)) [
  | inl blank ↦ rw blank (omega (arith, length-skip_blanks s))
  | inr other ↦ rw other (omega arith)
]

first_word-shorter : (s t rest : Text) → first_word s ≡ some (t, rest) → length rest < length s
unfolding first_word take_word
first_word-shorter [] t rest e = cc
first_word-shorter (c ∷ s) t rest e = elim (Bool-cases (c == srv_delim)) [
  | inl blank ↦ ground arith
  | inr other ↦ ground (arith, length-take_word s)
]

-- Every token takes a byte of the line at least.
strtok-shorter : (s t rest : Text) → strtok s ≡ some (t, rest) → length rest < length s
unfolding strtok
strtok-shorter s t rest e =
    omega (arith, first_word-shorter (skip_blanks s) t rest e, length-skip_blanks s)

abbrev Finished : Ended Tokens → Type 0
Finished unfinished = ⊥
Finished (exits code) = Unit {0}
Finished (value a) = length a.tokens < a.size

module _ (grows : ℕ → Bool) where
  grow-Finished : (a : Tokens) → length a.tokens ≤ a.size → Finished (grow grows a)
  unfolding grow
  grow-Finished a h = elim (Bool-cases (leb a.size (length a.tokens))) [
    | inl full ↦ elim (Bool-cases (grows (a.size + srv_bufsize))) [
      | inl given ↦ rw (full, given) (omega arith)
      | inr refused ↦ rw (full, refused) tt
    ]
    | inr free ↦ rw free (ground arith)
  ]

  more-Finished :
      (b : Ended Tokens)
      → Finished b
      → (next : Tokens → Run (Ended Tokens))
      → ((c : Tokens) → length c.tokens < c.size → Returns (next c) Finished)
      → Returns (and_then b next) Finished
  more-Finished unfinished good next h = absurd good
  more-Finished (exits code) good next h = (exits code, refl, tt)
  more-Finished (value c) good next h = h c good

  terminated-ends :
      (b : Ended Tokens)
      → Finished b
      → Returns (and_then b (terminated grows)) (λ r. ¬ (r ≡ unfinished))
  unfolding terminated
  terminated-ends unfinished good = absurd good
  terminated-ends (exits code) good = (exits code, refl, λ e. cc)
  terminated-ends (value c) good =
      rw (lt→ltb (length c.tokens) c.size good) (value c.tokens, refl, λ e. cc)

  token_loop-Finished :
      (fuel : ℕ) (s : Text) (o : Option (Text × Text)) (a : Tokens)
      → strtok s ≡ o
      → length s ≤ fuel
      → length a.tokens < a.size
      → Returns (token_loop grows fuel o a) Finished
  unfolding token_loop
  token_loop-Finished fuel s none a e enough room = (value a, token_loop-none grows fuel a, room)
  token_loop-Finished zero s (some (t, rest)) a e enough room =
      absurd (omega (arith, strtok-shorter s t rest e))
  token_loop-Finished (suc fuel) s (some (t, rest)) a e enough room =
      let b : Tokens = record a { tokens = a.tokens ++ (t ∷ []) } in
      rw (store_token-room t a room) (
        more-Finished (grow grows b)
          (grow-Finished b (omega (arith, length-append a.tokens (t ∷ []))))
          (λ c. token_loop grows fuel (strtok rest) c)
          λ c free.
            token_loop-Finished fuel rest (strtok rest) c refl
              (omega (arith, strtok-shorter s t rest e)) free)

  -- Whatever the line is, and whatever memory is given, the splitting ends and stores no token behind
  -- the array.
  pub tokenize-ends :
      (memory : Bool) (line : Text) → Returns (tokenize grows memory line) (λ r. ¬ (r ≡ unfinished))
  unfolding tokenize
  tokenize-ends false line = (exits 1, refl, λ e. cc)
  tokenize-ends true line =
      let (c, run, good) =
        token_loop-Finished (length line) line (strtok line)
          (record { tokens = []; size = srv_bufsize }) refl (omega arith) (omega arith) in
      rw run (terminated-ends c good)
