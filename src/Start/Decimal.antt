-- ===== src/Start/Decimal.antt =====
-- Numbers in the configuration: `stoi` reads the decimal digits of a number.
use malicious_mpsi.Base.{
  ℕ, zero, suc, ◌+◌, ◌-◌, ◌*◌, ◌/◌, ◌%◌, ◌^◌, ◌≤◌, ◌<◌, ◌≡◌, refl, sym, ap, ◌∙◌, true, [], ◌∷◌,
  ◌++◌, some, arith, All, ltb, lt→ltb, Bool-cases, inl, inr, if◌then◌else◌, ltb→lt, false, ne→==,
  subst,
}
use native.Mathlib.Nat.{pow-succ'}
use malicious_mpsi.Config.{
  Text, pos, is_space, is_digit, skip_spaces, read_digits, unsigned_part, as_positive, signed_part,
  stoi,
}

-- The digits of a number, on fuel: as many are written as the fuel allows.
unfoldable pub decimal : ℕ → ℕ → Text
decimal zero n = []
decimal (suc fuel) n =
    let front = decimal fuel (n / 10) in
    if ltb n 10 then (b'0' + n) ∷ [] else front ++ ((b'0' + n % 10) ∷ [])

abbrev pub IsDigit : ℕ → Type 0
IsDigit c = (b'0' ≤ c) × (c ≤ b'9')

is_digit_lem : (c : ℕ) → IsDigit c → is_digit c ≡ true
unfolding is_digit
is_digit_lem c h = ground arith

All-snoc : (cs : Text) (c : ℕ) → All IsDigit cs → IsDigit c → All IsDigit (cs ++ (c ∷ []))
All-snoc [] c h d = (d, tt)
All-snoc (x ∷ cs) c h d = (h.0, All-snoc cs c h.1 d)

pub decimal-IsDigit : (fuel n : ℕ) → All IsDigit (decimal fuel n)
unfolding decimal
decimal-IsDigit zero n = tt
decimal-IsDigit (suc fuel) n = elim (Bool-cases (ltb n 10)) [
  | inl e ↦ let h = ltb→lt n 10 e in rw e ((omega arith, omega arith), tt)
  | inr e ↦ rw e (All-snoc _ _ (decimal-IsDigit fuel (n / 10)) (omega arith, omega arith))
]

read_digits-snoc :
    (cs : Text) (c m : ℕ)
    → All IsDigit cs
    → IsDigit c
    → read_digits m (cs ++ (c ∷ [])) ≡ 10 * read_digits m cs + (c - b'0')
unfolding read_digits
read_digits-snoc [] c m h d = rw (is_digit_lem c d) refl
read_digits-snoc (x ∷ cs) c m h d =
    rw (is_digit_lem x h.0) (read_digits-snoc cs c (10 * m + (x - b'0')) h.1 d)

ten_pow : (f : ℕ) → 10 ^ suc f ≡ 10 * 10 ^ f
ten_pow f = pow-succ' 10 f

read_digits-decimal : (fuel n : ℕ) → n < 10 ^ fuel → read_digits 0 (decimal fuel n) ≡ n
unfolding decimal read_digits
read_digits-decimal zero n h = omega arith
read_digits-decimal (suc fuel) n h = elim (Bool-cases (ltb n 10)) [
  | inl e ↦
      rw (e, is_digit_lem (b'0' + n) (omega arith, omega (arith, ltb→lt n 10 e))) (omega arith)
  | inr e ↦ rw e (
      read_digits-snoc _ _ 0 (decimal-IsDigit fuel (n / 10)) (omega arith, omega arith)
      ∙ rw (read_digits-decimal fuel (n / 10) (omega (arith, ten_pow fuel))) (omega arith))
]

is_space_lem : (c : ℕ) → IsDigit c → is_space c ≡ false
unfolding is_space
is_space_lem c h = ground arith

stoi-digits :
    (c : ℕ) (cs : Text)
    → All IsDigit (c ∷ cs)
    → read_digits 0 (c ∷ cs) < 2 ^ 31
    → stoi (c ∷ cs) ≡ some (pos (read_digits 0 (c ∷ cs)))
unfolding stoi skip_spaces signed_part as_positive unsigned_part
stoi-digits c cs h l =
    rw
      (
        is_space_lem c h.0,
        ne→== c b'-' (λ e. omega arith),
        ne→== c b'+' (λ e. omega arith),
        is_digit_lem c h.0,
        lt→ltb _ _ l,
      )
      refl

snoc-cases : (xs : Text) (x : ℕ) → (c : ℕ) × (cs : Text) × (xs ++ (x ∷ []) ≡ c ∷ cs)
snoc-cases [] x = (x, [], refl)
snoc-cases (y ∷ ys) x = (y, ys ++ (x ∷ []), refl)

pub decimal-cases : (fuel n : ℕ) → (c : ℕ) × (cs : Text) × (decimal (suc fuel) n ≡ c ∷ cs)
unfolding decimal
decimal-cases fuel n = elim (Bool-cases (ltb n 10)) [
  | inl e ↦ (b'0' + n, [], rw e refl)
  | inr e ↦ rw e (snoc-cases (decimal fuel (n / 10)) (b'0' + n % 10))
]

-- `stoi` reads the digits of a number below `2 ^ 31` as that number.
pub stoi-decimal : (n : ℕ) → n < 2 ^ 31 → stoi (decimal 10 n) ≡ some (pos n)
stoi-decimal n h =
    let (c, cs, e) = decimal-cases 9 n in
    let value : read_digits 0 (c ∷ cs) ≡ n =
      ap (read_digits 0) (sym e) ∙ read_digits-decimal 10 n (omega arith) in
    ap stoi e
    ∙ stoi-digits c cs (subst (All IsDigit) e (decimal-IsDigit 10 n)) (omega arith)
    ∙ ap (λ k. some (pos k)) value
