-- ===== src/Prelude/Text.antt =====
-- Text as its bytes: comparison as `str` compares, prefixes and suffixes, splitting at a byte,
-- trimming, and `parse::<u64>()`. All of it follows the Rust standard library.
use Prim.Native.Nat.{ℕ, ◌+◌, ◌-◌, ◌*◌, ◌^◌, ◌<◌, compare, Ordering}
use Prim.Native.Char.{code}
use Prim.Native.String.{String}
use mathlib.Core.Path.{◌≡◌, refl, ap}
use mathlib.Core.Logic.{◌↔◌, inl, inr}
use mathlib.Core.Bool.{Bool, true, false, ◌&&◌, ◌||◌}
use mathlib.Core.List.{List, [], ◌∷◌, ◌++◌, reverse, reverse-append, reverse-reverse}
use mathlib.Core.Option.{Option, none, some}
use native.Mathlib.Omega.{arith}
use mysql_ha.Prelude.Lists.{any}
use mysql_ha.Prelude.Tests.{ltb, leb, ◌==◌, if◌then◌else◌, Bool-cases}

-- A `str` or `String`: its bytes.
abbrev pub Str : Type 0
Str = List ℕ

-- The bytes of an ASCII literal.
abbrev pub codes : String → Str
codes String.[] = []
codes (String.◌∷◌ c s) = code c ∷ codes s

abbrev pub str_eq : Str → Str → Bool
str_eq [] [] = true
str_eq [] (y ∷ ys) = false
str_eq (x ∷ xs) [] = false
str_eq (x ∷ xs) (y ∷ ys) = x == y && str_eq xs ys

-- `a.cmp(b)`: byte by byte, a proper prefix first.
abbrev pub str_cmp : Str → Str → Ordering
str_cmp [] [] = Ordering.eq
str_cmp [] (y ∷ ys) = Ordering.lt
str_cmp (x ∷ xs) [] = Ordering.gt
str_cmp (x ∷ xs) (y ∷ ys) =
    let rest = str_cmp xs ys in
    elim (compare x y) [
      | Ordering.lt ↦ Ordering.lt
      | Ordering.eq ↦ rest
      | Ordering.gt ↦ Ordering.gt
    ]

abbrev pub is_empty : Str → Bool
is_empty [] = true
is_empty (x ∷ xs) = false

-- `s.contains(&x)` on a set of names.
abbrev pub contains : List Str → Str → Bool
contains [] a = false
contains (x ∷ xs) a = str_eq x a || contains xs a

pub str_eq_iff : (a b : Str) → (str_eq a b ≡ true) ↔ (a ≡ b)
str_eq_iff [] [] = (λ _. refl, λ _. refl)
str_eq_iff [] (y ∷ ys) = (λ h. cc, λ h. cc)
str_eq_iff (x ∷ xs) [] = (λ h. cc, λ h. cc)
str_eq_iff (x ∷ xs) (y ∷ ys) =
    (λ h. ground (arith, (str_eq_iff xs ys).0), λ h. ground (arith, (str_eq_iff xs ys).1))

pub str_eq_refl : (a : Str) → str_eq a a ≡ true
str_eq_refl a = (str_eq_iff a a).1 refl

-- `a.eq_ignore_ascii_case(b)`.
abbrev pub to_ascii_lowercase : ℕ → ℕ
to_ascii_lowercase c = if leb b'A' c && leb c b'Z' then c + 32 else c

abbrev pub eq_ignore_ascii_case : Str → Str → Bool
eq_ignore_ascii_case [] [] = true
eq_ignore_ascii_case [] (y ∷ ys) = false
eq_ignore_ascii_case (x ∷ xs) [] = false
eq_ignore_ascii_case (x ∷ xs) (y ∷ ys) =
    to_ascii_lowercase x == to_ascii_lowercase y && eq_ignore_ascii_case xs ys

-- An `Option<String>` compared with a literal: `o.as_deref() == Some(s)`.
abbrev pub is_str : Option Str → Str → Bool
is_str none s = false
is_str (some t) s = str_eq t s

pub eq_ignore_ascii_case_refl : (a : Str) → eq_ignore_ascii_case a a ≡ true
eq_ignore_ascii_case_refl [] = refl
eq_ignore_ascii_case_refl (x ∷ xs) = ground (arith, eq_ignore_ascii_case_refl xs)

-- `s.strip_prefix(p)`.
unfoldable pub strip_prefix : Str → Str → Option Str
strip_prefix [] s = some s
strip_prefix (p ∷ ps) [] = none
strip_prefix (p ∷ ps) (c ∷ cs) = if p == c then strip_prefix ps cs else none

-- `s.strip_suffix(p)`.
unfoldable pub strip_suffix : Str → Str → Option Str
strip_suffix p s = elim (strip_prefix (reverse p) (reverse s)) [
  | none ↦ none
  | some stem ↦ some (reverse stem)
]

pub strip_prefix-append : (p s : Str) → strip_prefix p (p ++ s) ≡ some s
unfolding strip_prefix
strip_prefix-append [] s = refl
strip_prefix-append (c ∷ p) s = ground (arith, strip_prefix-append p s)

pub strip_suffix-append : (s p : Str) → strip_suffix p (s ++ p) ≡ some s
unfolding strip_suffix
strip_suffix-append s p =
    rw (reverse-append s p, strip_prefix-append (reverse p) (reverse s), strip_suffix)
      (ap some (reverse-reverse s))

-- The part before the first `sep`: `s.split(sep).next()`.
unfoldable pub split_first : ℕ → Str → Str
split_first sep [] = []
split_first sep (c ∷ cs) = if c == sep then [] else c ∷ split_first sep cs

pub split_first-append :
    (sep : ℕ) (s r : Str) → any (λ c. c == sep) s ≡ false → split_first sep (s ++ (sep ∷ r)) ≡ s
unfolding split_first
split_first-append sep [] r h = ground arith
split_first-append sep (c ∷ cs) r h = ground (arith, split_first-append sep cs r)

-- The part behind the last `sep`, the whole text if there is none: `s.rsplit(sep).next()`.
unfoldable pub rsplit_from : ℕ → Str → Str → Str
rsplit_from sep seen [] = seen
rsplit_from sep seen (c ∷ cs) = rsplit_from sep (if c == sep then [] else seen ++ c ∷ []) cs

unfoldable pub rsplit_next : ℕ → Str → Str
unfolding rsplit_from
rsplit_next sep s = rsplit_from sep [] s

-- `s.trim_start_matches(c)`, and `s.trim_matches(c)` for one character.
unfoldable pub trim_start_matches : ℕ → Str → Str
trim_start_matches c [] = []
trim_start_matches c (x ∷ xs) = if x == c then trim_start_matches c xs else x ∷ xs

unfoldable pub trim_matches : ℕ → Str → Str
unfolding trim_start_matches
trim_matches c s = reverse (trim_start_matches c (reverse (trim_start_matches c s)))

abbrev pub u64_mod : ℕ
u64_mod = 2 ^ 64

-- The digits of a `u64`, each checked, with the accumulator so far: `none` on a byte that is no
-- digit and on a value that does not fit 64 bits.
unfoldable pub parse_digits : ℕ → Str → Option ℕ
parse_digits acc [] = some acc
parse_digits acc (c ∷ cs) =
    let value = acc * 10 + (c - 48) in
    let rest = parse_digits value cs in
    if leb 48 c && (leb c 57 && ltb value u64_mod) then rest else none

-- `s.parse::<u64>().ok()`: a leading `+` is allowed, an empty text or a lone sign is not.
unfoldable pub parse_u64 : Str → Option ℕ
unfolding parse_digits
parse_u64 [] = none
parse_u64 (c ∷ []) = parse_digits 0 (c ∷ [])
parse_u64 (c ∷ d ∷ r) = if c == b'+' then parse_digits 0 (d ∷ r) else parse_digits 0 (c ∷ d ∷ r)

-- A value that parses fits 64 bits.
pub parse_digits-lt :
    (acc : ℕ) (s : Str) {n : ℕ} → acc < u64_mod → parse_digits acc s ≡ some n → n < u64_mod
unfolding parse_digits
parse_digits-lt acc [] h e = ground arith
parse_digits-lt acc (c ∷ cs) {n} h e =
    ground (arith, parse_digits-lt (acc * 10 + (c - 48)) cs {n = n})

pub parse_u64-lt : (s : Str) {n : ℕ} → parse_u64 s ≡ some n → n < u64_mod
unfolding parse_u64
parse_u64-lt [] e = cc
parse_u64-lt (c ∷ []) e = parse_digits-lt 0 (c ∷ []) (omega arith) e
parse_u64-lt (c ∷ d ∷ r) {n} e = elim (Bool-cases (c == b'+')) [
  | inl sign ↦ parse_digits-lt 0 (d ∷ r) (omega arith) (rw sign at e)
  | inr plain ↦ parse_digits-lt 0 (c ∷ d ∷ r) (omega arith) (rw plain at e)
]

-- A byte in front of the first of the parts.
abbrev pub onto_first : ℕ → List Str → List Str
onto_first b [] = (b ∷ []) ∷ []
onto_first b (part ∷ parts) = (b ∷ part) ∷ parts

-- `s.split(separator)`.
unfoldable pub split : ℕ → Str → List Str
split separator [] = [] ∷ []
split separator (b ∷ bs) =
    let later = split separator bs in if b == separator then [] ∷ later else onto_first b later
