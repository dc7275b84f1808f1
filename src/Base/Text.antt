-- ===== src/Base/Text.antt =====
-- Byte strings, and the functions of Go's package strings that the program calls.
use Prim.Native.Nat.{ℕ}
use Prim.Native.Char.{code}
use Prim.Native.String.{String}
use mathlib.Core.Path.{◌≡◌, refl, sym, ap, ◌∙◌}
use mathlib.Core.Bool.{Bool, true, false, ◌&&◌}
use mathlib.Core.Logic.{◌≢◌, ◌↔◌}
use mathlib.Core.Option.{Option, none, some}
use mathlib.Core.List.{List, [], ◌∷◌, ◌++◌}
use native.Mathlib.Omega.{arith}
use vectory.Base.Tests.{◌==◌, if◌then◌else◌, Key}
use vectory.Base.Lists.{All}

abbrev pub Bytes : Type 0
Bytes = List ℕ

-- The bytes of a literal (all literals here are ASCII).
abbrev pub codes : String → Bytes
codes String.[] = []
codes (String.◌∷◌ c s) = code c ∷ codes s

abbrev pub bytes_same : Bytes → Bytes → Bool
bytes_same [] [] = true
bytes_same (a ∷ s) (b ∷ t) = (a == b) && bytes_same s t
bytes_same _ _ = false

pub bytes_same_of_eq : (s : Bytes) → bytes_same s s ≡ true
bytes_same_of_eq [] = refl
bytes_same_of_eq (a ∷ s) = ground (arith, bytes_same_of_eq s)

pub eq_of_bytes_same : (s t : Bytes) → bytes_same s t ≡ true → s ≡ t
eq_of_bytes_same [] [] h = refl
eq_of_bytes_same [] (b ∷ t) h = cc
eq_of_bytes_same (a ∷ s) [] h = cc
eq_of_bytes_same (a ∷ s) (b ∷ t) h = ground (arith, eq_of_bytes_same s t)

pub bytes_same_iff : (s t : Bytes) → (bytes_same s t ≡ true) ↔ (s ≡ t)
bytes_same_iff s t = (eq_of_bytes_same s t, λ e. ap (bytes_same s) (sym e) ∙ bytes_same_of_eq s)

instance abbrev pub bytes_key : Key Bytes
bytes_key = record { same = bytes_same; same_iff = bytes_same_iff }

abbrev pub is_empty : Bytes → Bool
is_empty [] = true
is_empty (c ∷ s) = false

-- No byte of the string is `b`.
abbrev pub Lacks : ℕ → Bytes → Type 0
Lacks b = All (λ c. c ≢ b)

-- strings.Split with a separator of one byte.
abbrev pub cons_head : ℕ → List Bytes → List Bytes
cons_head c [] = (c ∷ []) ∷ []
cons_head c (p ∷ ps) = (c ∷ p) ∷ ps

unfoldable pub split : Bytes → ℕ → List Bytes
split [] sep = [] ∷ []
split (c ∷ s) sep = let rest = split s sep in if c == sep then [] ∷ rest else cons_head c rest

-- strings.SplitN(s, sep, 2): `none` for the second part if the separator is absent.
unfoldable pub split_two : Bytes → ℕ → Bytes × Option Bytes
split_two [] sep = ([], none)
split_two (c ∷ s) sep =
    let rest = split_two s sep in if c == sep then ([], some s) else (c ∷ rest.0, rest.1)

-- strings.HasPrefix and strings.TrimPrefix.
abbrev pub has_prefix : Bytes → Bytes → Bool
has_prefix s [] = true
has_prefix [] (b ∷ p) = false
has_prefix (a ∷ s) (b ∷ p) = (a == b) && has_prefix s p

abbrev pub strip : Bytes → Bytes → Bytes
strip s [] = s
strip [] (b ∷ p) = []
strip (a ∷ s) (b ∷ p) = strip s p

abbrev pub trim_prefix : Bytes → Bytes → Bytes
trim_prefix s p = if has_prefix s p then strip s p else s

pub has_prefix-append : (p s : Bytes) → has_prefix (p ++ s) p ≡ true
has_prefix-append [] s = refl
has_prefix-append (a ∷ p) s = ground (arith, has_prefix-append p s)

pub strip-append : (p s : Bytes) → strip (p ++ s) p ≡ s
strip-append [] s = refl
strip-append (a ∷ p) s = strip-append p s

pub split-Lacks : (p : Bytes) (sep : ℕ) → Lacks sep p → split p sep ≡ p ∷ []
unfolding split
split-Lacks [] sep h = refl
split-Lacks (c ∷ p) sep h = ground (arith, split-Lacks p sep h.1)

pub split-append :
    (p s : Bytes) (sep : ℕ) → Lacks sep p → split (p ++ sep ∷ s) sep ≡ p ∷ split s sep
unfolding split
split-append [] s sep h = ground arith
split-append (c ∷ p) s sep h = ground (arith, split-append p s sep h.1)

pub split_two-append :
    (p s : Bytes) (sep : ℕ) → Lacks sep p → split_two (p ++ sep ∷ s) sep ≡ (p, some s)
unfolding split_two
split_two-append [] s sep h = ground arith
split_two-append (c ∷ p) s sep h = ground (arith, split_two-append p s sep h.1)

pub trim_prefix-append : (p s : Bytes) → trim_prefix (p ++ s) p ≡ s
trim_prefix-append p s = rw (has_prefix-append p s) (strip-append p s)
