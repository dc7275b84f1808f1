-- ===== src/Base/Decimal.antt =====
-- Decimal numerals: the verb %d, strconv.Itoa and strconv.Atoi.
use Prim.Native.Nat.{ℕ, zero, suc, ◌+◌, ◌-◌, ◌*◌, ◌/◌, ◌%◌, ◌^◌, ◌≤◌, ◌<◌}
use mathlib.Core.Path.{◌≡◌, refl}
use mathlib.Core.Bool.{Bool, true, false, ◌&&◌}
use mathlib.Core.Logic.{◌≢◌}
use mathlib.Core.Option.{Option, none, some}
use mathlib.Core.List.{[], ◌∷◌}
use native.Mathlib.Omega.{arith}
use vectory.Base.Tests.{ltb, leb, ◌==◌, if◌then◌else◌}
use vectory.Base.Lists.{All}
use vectory.Base.Text.{Bytes, Lacks}
use vectory.Base.Int.{ℤ, pos, negsuc}

-- Divides by ten until nothing is left; `suc n` rounds are enough for `n`.
unfoldable pub digits : ℕ → ℕ → Bytes → Bytes
digits zero n out = out
digits (suc f) n out =
    let more = digits f (n / 10) ((b'0' + n % 10) ∷ out) in
    if ltb n 10 then (b'0' + n) ∷ out else more

unfoldable pub nat_text : ℕ → Bytes
unfolding digits
nat_text n = digits (suc n) n []

unfoldable pub itoa : ℤ → Bytes
unfolding nat_text
itoa (pos n) = nat_text n
itoa (negsuc n) = b'-' ∷ nat_text (suc n)

unfoldable pub read_digits : Bytes → ℕ → Option ℕ
read_digits [] n = some n
read_digits (c ∷ s) n =
    let rest = read_digits s (n * 10 + (c - b'0')) in
    if leb b'0' c && leb c b'9' then rest else none

-- At least one digit.
unfoldable pub read_nat : Bytes → Option ℕ
unfolding read_digits
read_nat [] = none
read_nat (c ∷ s) = read_digits (c ∷ s) 0

abbrev pub max_int : ℕ
max_int = 2 ^ 63 - 1

abbrev pub signed_of : Bool → Option ℕ → Option ℤ
signed_of neg none = none
signed_of false (some n) = if leb n max_int then some (pos n) else none
signed_of true (some zero) = some (pos 0)
signed_of true (some (suc n)) = if leb n max_int then some (negsuc n) else none

-- strconv.Atoi on a 64-bit platform: an optional sign, digits, and a value in range.
unfoldable pub atoi : Bytes → Option ℤ
unfolding read_nat
atoi [] = none
atoi (c ∷ s) =
    if c == b'-'
    then signed_of true (read_nat s)
    else if c == b'+'
    then signed_of false (read_nat s)
    else signed_of false (read_nat (c ∷ s))

abbrev pub IsInt64 : ℤ → Type 0
IsInt64 (pos n) = n ≤ max_int
IsInt64 (negsuc n) = n ≤ max_int

abbrev pub IsDigit : ℕ → Type 0
IsDigit c = (b'0' ≤ c) × (c ≤ b'9')

-- Reading the digits of `n` in front of `out` is reading `out` from `n`.
pub read_digits-digits :
    (f n : ℕ) (out : Bytes) → n < f → read_digits (digits f n out) 0 ≡ read_digits out n
unfolding digits read_digits
read_digits-digits zero n out h = elim h [ ]
read_digits-digits (suc f) n out h =
    ground (arith, read_digits-digits f (n / 10) ((b'0' + n % 10) ∷ out))

pub digits-All-IsDigit : (f n : ℕ) (out : Bytes) → All IsDigit out → All IsDigit (digits f n out)
unfolding digits
digits-All-IsDigit zero n out h = h
digits-All-IsDigit (suc f) n out h =
    ground (arith, digits-All-IsDigit f (n / 10) ((b'0' + n % 10) ∷ out))

digits-ne-nil : (f n : ℕ) (out : Bytes) → out ≢ [] → digits f n out ≢ []
unfolding digits
digits-ne-nil zero n out h = h
digits-ne-nil (suc f) n out h = ground (arith, digits-ne-nil f (n / 10) ((b'0' + n % 10) ∷ out))

pub nat_text-ne-nil : (n : ℕ) → nat_text n ≢ []
unfolding nat_text
nat_text-ne-nil n = ground (arith, digits-ne-nil n (n / 10) ((b'0' + n % 10) ∷ []))

pub nat_text-All-IsDigit : (n : ℕ) → All IsDigit (nat_text n)
unfolding nat_text
nat_text-All-IsDigit n = digits-All-IsDigit (suc n) n [] tt

read_nat-read_digits : (s : Bytes) → s ≢ [] → read_nat s ≡ read_digits s 0
unfolding read_nat
read_nat-read_digits [] h = absurd (h refl)
read_nat-read_digits (c ∷ s) h = refl

read_nat-nat_text : (n : ℕ) → read_nat (nat_text n) ≡ some n
unfolding nat_text
read_nat-nat_text n =
    rw (read_nat-read_digits (nat_text n) (nat_text-ne-nil n))
      (rw (read_digits-digits (suc n) n [] (omega arith)) (unfold read_digits in refl))

-- A text that begins with a digit has no sign.
atoi_unsigned : (s : Bytes) → s ≢ [] → All IsDigit s → atoi s ≡ signed_of false (read_nat s)
unfolding atoi
atoi_unsigned [] h d = absurd (h refl)
atoi_unsigned (c ∷ s) h d = ground arith

pub atoi-itoa : (z : ℤ) → IsInt64 z → atoi (itoa z) ≡ some z
unfolding itoa atoi
atoi-itoa (pos n) h =
    rw
      (atoi_unsigned (nat_text n) (nat_text-ne-nil n) (nat_text-All-IsDigit n), read_nat-nat_text n)
      (ground arith)
atoi-itoa (negsuc n) h = rw (read_nat-nat_text (suc n)) (ground arith)

digits-Lacks : (b : ℕ) (s : Bytes) → b < b'0' → All IsDigit s → Lacks b s
digits-Lacks b [] h d = tt
digits-Lacks b (c ∷ s) h d = ground (arith, digits-Lacks b s h d.1)

colon-Lacks : (s : Bytes) → All IsDigit s → Lacks b':' s
colon-Lacks [] d = tt
colon-Lacks (c ∷ s) d = ground (arith, colon-Lacks s d.1)

pub itoa-Lacks-colon : (z : ℤ) → Lacks b':' (itoa z)
unfolding itoa
itoa-Lacks-colon (pos n) = colon-Lacks (nat_text n) (nat_text-All-IsDigit n)
itoa-Lacks-colon (negsuc n) =
    (λ e. absurd (omega arith), colon-Lacks (nat_text (suc n)) (nat_text-All-IsDigit (suc n)))

minus_sign : atoi (itoa (negsuc 41)) ≡ some (negsuc 41)
unfolding atoi itoa
minus_sign = refl
