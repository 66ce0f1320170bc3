-- ===== src/Watch/Flags.antt =====
-- The number of flags in a record.
use gd_sync_harness.Prelude.{
  length, false, ℕ, zero, suc, ◌+◌, ◌*◌, ◌/◌, ◌%◌, ◌-◌, ◌^◌, ◌≤◌, ◌<◌, ◌≡◌, ◌≢◌, ◌∙◌, refl, sym, ap,
  subst, true, false, none, some, some_injective, [], ◌∷◌, ◌++◌, All, All-append, leb, ltb, arith,
  inl, inr, Bool-cases, Option-cases, if◌then◌else◌,
}
use gd_sync_harness.Paths.{Text}
use gd_sync_harness.Watch.{
  is_space, drop_leading, drop_trailing, read_digit, read_digits, parse_flags,
}

-- The number as fswatch writes it, on as much fuel as there are digits.
unfoldable pub decimal : ℕ → ℕ → Text
decimal zero n = []
decimal (suc fuel) n =
    let high = decimal fuel (n / 10) in
    if ltb n 10 then (b'0' + n) ∷ [] else high ++ (b'0' + n % 10) ∷ []

abbrev pub flag_text : ℕ → Text
flag_text n = decimal (suc n) n

abbrev pub IsDigit : ℕ → Type 0
IsDigit c = (b'0' ≤ c) × (c ≤ b'9')

abbrev pub wide : ℕ
wide = 2 ^ 64

decimal-IsDigit : (fuel n : ℕ) → All IsDigit (decimal fuel n)
unfolding decimal
decimal-IsDigit zero n = tt
decimal-IsDigit (suc fuel) n = elim (Bool-cases (ltb n 10)) [
  | inl b ↦ rw b ((ground arith, ground arith), tt)
  | inr b ↦ rw b (
      All-append IsDigit (decimal fuel (n / 10)) ((b'0' + n % 10) ∷ [])
        (decimal-IsDigit fuel (n / 10)) ((omega arith, omega arith), tt))
]

read_digit-next :
    (m d v : ℕ) → d < 10 → m * 10 + d ≡ v → v < wide → read_digit m (b'0' + d) ≡ some v
read_digit-next m d v small e fits =
    let value : (m * 10 + (b'0' + d - b'0')) % wide ≡ v = omega arith in
    let low : leb b'0' (b'0' + d) ≡ true = ground arith in
    let high : leb (b'0' + d) b'9' ≡ true = ground arith in rw (low, high) (ap some value)

read_digits-one : (n c : ℕ) → read_digits n (c ∷ []) ≡ read_digit n c
unfolding read_digits
read_digits-one n c = elim (Option-cases (read_digit n c)) [
  | inl e ↦ rw (read_digits, e) refl
  | inr (m, e) ↦ rw (read_digits, e) refl
]

read_digits-next :
    (n c k : ℕ) (s : Text) → read_digit n c ≡ some k → read_digits n (c ∷ s) ≡ read_digits k s
unfolding read_digits
read_digits-next n c k s e = rw (read_digits, e) refl

read_digits-stop : (n c : ℕ) (s : Text) → read_digit n c ≡ none → read_digits n (c ∷ s) ≡ none
unfolding read_digits
read_digits-stop n c s e = rw (read_digits, e) refl

read_digits-append :
    (n c : ℕ) (s : Text) {m : ℕ}
    → read_digits n s ≡ some m
    → read_digits n (s ++ c ∷ []) ≡ read_digit m c
unfolding read_digits
read_digits-append n c [] {m} h =
    subst (λ k. read_digits n (c ∷ []) ≡ read_digit k c) (some_injective h) (read_digits-one n c)
read_digits-append n c (d ∷ s) {m} h = elim (Option-cases (read_digit n d)) [
  | inl e ↦ let nothing = read_digits-stop n d s e in grind arith
  | inr (k, e) ↦
      read_digits-next n d k (s ++ c ∷ []) e
      ∙ read_digits-append k c s (sym (read_digits-next n d k s e) ∙ h)
]

read_digits-decimal : (fuel n : ℕ) → n < fuel → n < wide → read_digits 0 (decimal fuel n) ≡ some n
unfolding decimal
read_digits-decimal zero n enough fits = ground arith
read_digits-decimal (suc fuel) n enough fits = elim (Bool-cases (ltb n 10)) [
  | inl b ↦
      rw b (read_digits-one 0 (b'0' + n) ∙ read_digit-next 0 n n (ground arith) (omega arith) fits)
  | inr b ↦ rw b (
      read_digits-append 0 (b'0' + n % 10) (decimal fuel (n / 10))
        (read_digits-decimal fuel (n / 10) (ground arith) (omega arith))
      ∙ read_digit-next (n / 10) (n % 10) n (omega arith) (omega arith) fits)
]

digit-not_space : {c : ℕ} → IsDigit c → is_space c ≡ false
digit-not_space h = ground arith

drop_leading-digits : (s : Text) → All IsDigit s → drop_leading s ≡ s
drop_leading-digits [] h = refl
drop_leading-digits (c ∷ s) h = rw (digit-not_space h.0) refl

drop_trailing-digits : (s : Text) → All IsDigit s → drop_trailing s ≡ s
drop_trailing-digits [] h = refl
drop_trailing-digits (c ∷ s) h =
    rw (digit-not_space h.0) (ap (λ t. c ∷ t) (drop_trailing-digits s h.1))

pub parse_flags-flag_text : (n : ℕ) → n < wide → parse_flags (flag_text n) ≡ n
unfolding parse_flags
parse_flags-flag_text n fits =
    let digits = decimal-IsDigit (suc n) n in
    rw
      (
        drop_leading-digits (flag_text n) digits,
        drop_trailing-digits (flag_text n) digits,
        read_digits-decimal (suc n) n (omega arith) fits,
      )
      refl

pub flag_text-no_nul : (n : ℕ) → All (λ c. c ≢ 0) (flag_text n)
flag_text-no_nul n = no_nul (flag_text n) (decimal-IsDigit (suc n) n)
  where
    no_nul : (s : Text) → All IsDigit s → All (λ c. c ≢ 0) s
    no_nul [] h = tt
    no_nul (c ∷ s) h = (omega (arith, h.0), no_nul s h.1)

-- 10 ^ (k + 1)
abbrev tens : ℕ → ℕ
tens zero = 10
tens (suc k) = 10 * tens k

length-append_one : (s : Text) (c : ℕ) → length (s ++ c ∷ []) ≡ suc (length s)
length-append_one [] c = refl
length-append_one (d ∷ s) c = let ih = length-append_one s c in omega (arith, ih)

decimal-short : (fuel k n : ℕ) → n < tens k → length (decimal fuel n) ≤ suc k
unfolding decimal
decimal-short zero k n fits = omega arith
decimal-short (suc fuel) zero n fits = elim (Bool-cases (ltb n 10)) [
  | inl b ↦ rw b (omega arith)
  | inr b ↦ absurd (ground (arith, fits, b))
]
decimal-short (suc fuel) (suc k) n fits = elim (Bool-cases (ltb n 10)) [
  | inl b ↦ rw b (omega arith)
  | inr b ↦
      let ih = decimal-short fuel k (n / 10) (omega (arith, fits)) in
      rw (b, length-append_one (decimal fuel (n / 10)) (b'0' + n % 10)) (omega (arith, ih))
]

pub flag_text-short : (n : ℕ) → n < wide → length (flag_text n) ≤ 20
flag_text-short n fits = decimal-short (suc n) 19 n (omega (arith, fits))
