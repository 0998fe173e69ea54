-- ===== src/Server/Info.antt =====
-- What handle_info_update of server/src/server.c tells of the time, by format_uptime of
-- common/src/protocol.c.
use secure_chat.Prelude.{
  ℕ, suc, zero, ◌+◌, ◌-◌, ◌*◌, ◌/◌, ◌%◌, ◌^◌, ◌<◌, ◌≤◌, ◌≡◌, refl, ap, ltb, Option, none, some, [],
  ◌∷◌, ◌++◌, if◌then◌else◌, Text, snprintf, Run, ok, fault, null_pointer, lt→ltb, false, inl, inr,
  Bool-cases, arith,
}
use secure_chat.HashMap.{HashMap}
use secure_chat.Protocol.Number.{ℤ, pos, negsuc, decimal, decimal_loop, print_int}
use secure_chat.Session.{int_of_size}

-- `%02d`
unfoldable pub two_digits : ℤ → Text
two_digits (pos n) = if ltb n 10 then b'0' ∷ decimal n else decimal n
two_digits (negsuc n) = print_int (negsuc n)

-- The time is not negative; the hours are an `int`, and the buffer has `size` bytes.
unfoldable pub format_uptime : ℕ → ℕ → Text
format_uptime size seconds = snprintf size (
    two_digits (int_of_size (seconds / 3600))
    ++ (b':'
        ∷ (two_digits (pos (seconds % 3600 / 60)) ++ (b':' ∷ two_digits (pos (seconds % 60))))))

-- A turn of handle_info_update: the count of the table, and the two times, or nothing where `sysinfo`
-- fails.
pub record Info : Type 0 where
  pub online : ℤ
  pub server_uptime : Text
  pub system_uptime : Text

unfoldable pub info_update : Option HashMap → Option ℕ → ℕ → Run (Option Info)
info_update none system seconds = fault null_pointer
info_update (some m) none seconds = ok none
info_update (some m) (some uptime) seconds = ok (
    some (record {
      online = int_of_size m.current_elements;
      server_uptime = format_uptime 9 seconds;
      system_uptime = format_uptime 9 uptime;
    }))

-- The time that such a text means.
unfoldable pub read_uptime : Text → Option ℕ
read_uptime (a ∷ b ∷ c ∷ d ∷ e ∷ f ∷ g ∷ h ∷ []) = some (
    ((a - b'0') * 10 + (b - b'0')) * 3600
    + (((d - b'0') * 10 + (e - b'0')) * 60 + ((g - b'0') * 10 + (h - b'0'))))
read_uptime s = none

decimal_loop-digit : (f n : ℕ) (out : Text) → n < 10 → decimal_loop (suc f) n out ≡ (b'0' + n) ∷ out
unfolding decimal_loop
decimal_loop-digit f n out h =
    let small = lt→ltb n 10 h in let same : n % 10 ≡ n = omega arith in rw (small, same) refl

two_digits-pair : (n : ℕ) → n < 100 → two_digits (pos n) ≡ (b'0' + n / 10) ∷ (b'0' + n % 10) ∷ []
unfolding two_digits decimal decimal_loop
two_digits-pair zero h = refl
two_digits-pair (suc k) h = elim (Bool-cases (ltb (suc k) 10)) [
  | inl small ↦ let none_left : suc k / 10 ≡ 0 = ground arith in rw (small, none_left) refl
  | inr large ↦
      let digit = decimal_loop-digit k (suc k / 10) ((b'0' + suc k % 10) ∷ []) (omega arith) in
      rw (large, digit) refl
]

int_of_size-hours : (n : ℕ) → n < 1000 → int_of_size n ≡ pos n
int_of_size-hours n h =
    let whole : n % 2 ^ 32 ≡ n = omega arith in
    let small = lt→ltb n (2 ^ 31) (omega arith) in rw (whole, small) refl

tens : (n : ℕ) → (b'0' + n / 10 - b'0') * 10 + (b'0' + n % 10 - b'0') ≡ n
tens n = omega arith

sixties : (s : ℕ) → s / 3600 * 3600 + (s % 3600 / 60 * 60 + s % 60) ≡ s
sixties s = omega arith

clock :
    (s : ℕ)
    → ((b'0' + s / 3600 / 10 - b'0') * 10 + (b'0' + s / 3600 % 10 - b'0')) * 3600
        + (((b'0' + s % 3600 / 60 / 10 - b'0') * 10 + (b'0' + s % 3600 / 60 % 10 - b'0')) * 60
            + ((b'0' + s % 60 / 10 - b'0') * 10 + (b'0' + s % 60 % 10 - b'0')))
      ≡ s
clock s = rw (tens (s / 3600), tens (s % 3600 / 60), tens (s % 60)) (sixties s)

-- For a time of less than 100 hours the 9 bytes of the buffer hold the whole text, and the text tells the
-- time to the second.
pub read_uptime-format_uptime :
    (seconds : ℕ) → seconds < 360000 → read_uptime (format_uptime 9 seconds) ≡ some seconds
unfolding format_uptime read_uptime
read_uptime-format_uptime seconds h =
    let hours = int_of_size-hours (seconds / 3600) (omega arith) in
    simp
      (
        hours,
        two_digits-pair (seconds / 3600) (omega arith),
        two_digits-pair (seconds % 3600 / 60) (omega arith),
        two_digits-pair (seconds % 60) (omega arith),
      )
      (ap (λ n. some n) (clock seconds))

two_digits-triple :
    (n : ℕ)
    → 100 ≤ n
    → n < 1000
    → two_digits (pos n) ≡ (b'0' + n / 10 / 10) ∷ (b'0' + n / 10 % 10) ∷ (b'0' + n % 10) ∷ []
unfolding two_digits decimal decimal_loop
two_digits-triple zero low h = absurd (omega arith)
two_digits-triple (suc zero) low h = absurd (omega arith)
two_digits-triple (suc (suc k)) low h =
    let n = suc (suc k) in
    let big : ltb n 10 ≡ false = ground arith in
    let still : ltb (n / 10) 10 ≡ false = ground arith in
    let digit =
      decimal_loop-digit k (n / 10 / 10) ((b'0' + n / 10 % 10) ∷ (b'0' + n % 10) ∷ [])
        (omega arith) in
    rw (big, still, digit) refl

-- The text of a time of 100 to 999 hours.
cut : ℕ → Text
cut s =
    (b'0' + s / 3600 / 10 / 10)
    ∷ (b'0' + s / 3600 / 10 % 10)
    ∷ (b'0' + s / 3600 % 10)
    ∷ b':'
    ∷ (b'0' + s % 3600 / 60 / 10)
    ∷ (b'0' + s % 3600 / 60 % 10)
    ∷ b':'
    ∷ (b'0' + s % 60 / 10)
    ∷ []

format_uptime-long : (s : ℕ) → 360000 ≤ s → s < 3600000 → format_uptime 9 s ≡ cut s
unfolding format_uptime cut
format_uptime-long s low h =
    let hours = int_of_size-hours (s / 3600) (omega arith) in
    simp
      (
        hours,
        two_digits-triple (s / 3600) (omega arith) (omega arith),
        two_digits-pair (s % 3600 / 60) (omega arith),
        two_digits-pair (s % 60) (omega arith),
      )
      refl

-- From 100 hours on, up to 1000, the last digit does not fit: the text is the same for all ten seconds
-- that share the others.
pub format_uptime-cut :
    (s : ℕ) → 360000 ≤ s → s < 3600000 → format_uptime 9 s ≡ format_uptime 9 (s / 10 * 10)
unfolding cut
format_uptime-cut s low h =
    let t = s / 10 * 10 in
    let hours : t / 3600 ≡ s / 3600 = omega arith in
    let minutes : t % 3600 / 60 ≡ s % 3600 / 60 = omega arith in
    let seconds : t % 60 / 10 ≡ s % 60 / 10 = omega arith in
    rw
      (
        format_uptime-long s low h,
        format_uptime-long t (omega arith) (omega arith),
        hours,
        minutes,
        seconds,
      )
      refl
