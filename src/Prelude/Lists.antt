-- ===== src/Prelude/Lists.antt =====
-- Lists measured by native numbers, Boolean searches through a list (`any`, `all`, `find`,
-- `filter` of an iterator), and membership as a type that can be matched.
use Prim.Native.Nat.{ℕ, zero, suc, ◌+◌, ◌≤◌, ◌<◌}
use mathlib.Core.Path.{◌≡◌, refl, ap}
use mathlib.Core.Logic.{◌⊎◌, inl, inr, ◌≢◌}
use mathlib.Core.Bool.{Bool, true, false, ◌&&◌, ◌||◌}
use mathlib.Core.List.{List, [], ◌∷◌, ◌++◌}
use mathlib.Core.Option.{Option, none, some}
use native.Mathlib.Omega.{arith}
use mysql_ha.Prelude.Tests.{if◌then◌else◌, Bool-cases}

module _ {ℓ} {A : Type ℓ} where
  abbrev pub length : List A → ℕ
  length [] = 0
  length (x ∷ xs) = suc (length xs)

  abbrev pub take : ℕ → List A → List A
  take zero xs = []
  take (suc n) [] = []
  take (suc n) (x ∷ xs) = x ∷ take n xs

  abbrev pub drop : ℕ → List A → List A
  drop zero xs = xs
  drop (suc n) [] = []
  drop (suc n) (x ∷ xs) = drop n xs

  abbrev pub get_elem? : List A → ℕ → Option A
  get_elem? [] i = none
  get_elem? (x ∷ xs) zero = some x
  get_elem? (x ∷ xs) (suc i) = get_elem? xs i

  -- `first` and `last` of a slice.
  abbrev pub first : List A → Option A
  first [] = none
  first (x ∷ xs) = some x

  abbrev pub last : List A → Option A
  last [] = none
  last (x ∷ []) = some x
  last (x ∷ y ∷ r) = last (y ∷ r)

  abbrev pub any : (A → Bool) → List A → Bool
  any p [] = false
  any p (x ∷ xs) = p x || any p xs

  abbrev pub all : (A → Bool) → List A → Bool
  all p [] = true
  all p (x ∷ xs) = p x && all p xs

  abbrev pub find : (A → Bool) → List A → Option A
  find p [] = none
  find p (x ∷ xs) = if p x then some x else find p xs

  abbrev pub filter : (A → Bool) → List A → List A
  filter p [] = []
  filter p (x ∷ xs) = let rest = filter p xs in if p x then x ∷ rest else rest

  -- Where in the list a value stands.
  pub data In (a : A) : List A → Type ℓ where
    here : {xs : List A} → In a (a ∷ xs)
    there : {x : A} {xs : List A} → In a xs → In a (x ∷ xs)

  abbrev pub All {κ} : (A → Type κ) → List A → Type κ
  All P [] = Unit
  All P (x ∷ xs) = P x × All P xs

module _ {ℓ} {A : Type ℓ} where
  pub length-append : (xs ys : List A) → length (xs ++ ys) ≡ length xs + length ys
  length-append [] ys = omega arith
  length-append (x ∷ xs) ys = omega (arith, length-append xs ys)

  pub take-append-drop : (n : ℕ) (xs : List A) → take n xs ++ drop n xs ≡ xs
  take-append-drop zero xs = refl
  take-append-drop (suc n) [] = refl
  take-append-drop (suc n) (x ∷ xs) = rw (take-append-drop n xs)

  pub take-length-append : (xs ys : List A) → take (length xs) (xs ++ ys) ≡ xs
  take-length-append [] ys = refl
  take-length-append (x ∷ xs) ys = ap (λ l. x ∷ l) (take-length-append xs ys)

  pub drop-length-append : (xs ys : List A) → drop (length xs) (xs ++ ys) ≡ ys
  drop-length-append [] ys = refl
  drop-length-append (x ∷ xs) ys = drop-length-append xs ys

  pub In-drop : {a : A} (n : ℕ) (xs : List A) → In a (drop n xs) → In a xs
  In-drop zero xs m = m
  In-drop (suc n) [] m = m
  In-drop (suc n) (x ∷ xs) m = there (In-drop n xs m)

  pub In-take_or_drop :
      {a : A} (n : ℕ) (xs : List A) → In a xs → In a (take n xs) ⊎ In a (drop n xs)
  In-take_or_drop zero xs m = inr m
  In-take_or_drop (suc n) [] m = elim m [ ]
  In-take_or_drop (suc n) (x ∷ xs) here = inl here
  In-take_or_drop (suc n) (x ∷ xs) (there m) = elim (In-take_or_drop n xs m) [
    | inl k ↦ inl (there k)
    | inr k ↦ inr k
  ]

  pub In-take : {a : A} (n : ℕ) (xs : List A) → In a (take n xs) → In a xs
  In-take zero xs m = elim m [ ]
  In-take (suc n) [] m = elim m [ ]
  In-take (suc n) (x ∷ xs) here = here
  In-take (suc n) (x ∷ xs) (there m) = there (In-take n xs m)

  pub length-take : (n : ℕ) (xs : List A) → n ≤ length xs → length (take n xs) ≡ n
  length-take zero xs h = refl
  length-take (suc n) [] h = absurd (omega arith)
  length-take (suc n) (x ∷ xs) h = omega (arith, length-take n xs)

  pub drop_lt_length : {a : A} (n : ℕ) (xs : List A) → In a (drop n xs) → n < length xs
  drop_lt_length zero [] m = elim m [ ]
  drop_lt_length zero (x ∷ xs) m = omega arith
  drop_lt_length (suc n) [] m = elim m [ ]
  drop_lt_length (suc n) (x ∷ xs) m = omega (arith, drop_lt_length n xs m)

  pub In-append_left : {a : A} (xs ys : List A) → In a xs → In a (xs ++ ys)
  In-append_left [] ys m = elim m [ ]
  In-append_left (x ∷ xs) ys here = here
  In-append_left (x ∷ xs) ys (there m) = there (In-append_left xs ys m)

  pub In-append_right : {a : A} (xs ys : List A) → In a ys → In a (xs ++ ys)
  In-append_right [] ys m = m
  In-append_right (x ∷ xs) ys m = there (In-append_right xs ys m)

  pub In-append_cases : {a : A} (xs ys : List A) → In a (xs ++ ys) → In a xs ⊎ In a ys
  In-append_cases [] ys m = inr m
  In-append_cases (x ∷ xs) ys here = inl here
  In-append_cases (x ∷ xs) ys (there m) = elim (In-append_cases xs ys m) [
    | inl l ↦ inl (there l)
    | inr r ↦ inr r
  ]

  pub In-cons : {a x : A} {xs : List A} → In a (x ∷ xs) → (a ≡ x) ⊎ In a xs
  In-cons here = inl refl
  In-cons (there m) = inr m

  pub All-In {κ} : (P : A → Type κ) {a : A} (xs : List A) → All P xs → In a xs → P a
  All-In P [] h m = elim m [ ]
  All-In P (x ∷ xs) h here = h.0
  All-In P (x ∷ xs) h (there m) = All-In P xs h.1 m

  pub All-of_In {κ} : (P : A → Type κ) (xs : List A) → ((a : A) → In a xs → P a) → All P xs
  All-of_In P [] h = tt
  All-of_In P (x ∷ xs) h = (h x here, All-of_In P xs (λ a m. h a (there m)))

  pub All-mono {κ μ} :
      (P : A → Type κ) (Q : A → Type μ) (xs : List A) → ((a : A) → P a → Q a) → All P xs → All Q xs
  All-mono P Q [] f h = tt
  All-mono P Q (x ∷ xs) f h = (f x h.0, All-mono P Q xs f h.1)

  pub All-append {κ} : (P : A → Type κ) (xs ys : List A) → All P xs → All P ys → All P (xs ++ ys)
  All-append P [] ys hx hy = hy
  All-append P (x ∷ xs) ys hx hy = (hx.0, All-append P xs ys hx.1 hy)

module _ {ℓ} {A : Type ℓ} (p : A → Bool) where
  pub any-true : (a : A) (xs : List A) → In a xs → p a ≡ true → any p xs ≡ true
  any-true a [] m h = elim m [ ]
  any-true a (x ∷ xs) here h = ground arith
  any-true a (x ∷ xs) (there m) h = ground (arith, any-true a xs m h)

  pub any-false : {a : A} (xs : List A) → any p xs ≡ false → In a xs → p a ≡ false
  any-false [] h m = elim m [ ]
  any-false (x ∷ xs) h here = ground arith
  any-false (x ∷ xs) h (there m) = any-false xs (ground arith) m

  pub any_witness : (xs : List A) → any p xs ≡ true → (a : A) × In a xs × (p a ≡ true)
  any_witness [] h = cc
  any_witness (x ∷ xs) h = elim (Bool-cases (p x)) [
    | inl e ↦ (x, here, e)
    | inr e ↦ let (a, m, q) = any_witness xs (ground arith) in (a, there m, q)
  ]

  pub find-some : (xs : List A) {a : A} → find p xs ≡ some a → In a xs × (p a ≡ true)
  find-some [] h = cc
  find-some (x ∷ xs) {a} h = elim (Bool-cases (p x)) [
    | inl e ↦ let same : x ≡ a = ground arith in (rw (← same) here, rw (← same) e)
    | inr e ↦ let (m, q) = find-some xs {a = a} (ground arith) in (there m, q)
  ]

  pub find-none : {a : A} (xs : List A) → find p xs ≡ none → In a xs → p a ≡ false
  find-none [] h m = elim m [ ]
  find-none (x ∷ xs) h here = ground arith
  find-none (x ∷ xs) h (there m) = find-none xs (ground arith) m

  pub find_total : (a : A) (xs : List A) → In a xs → p a ≡ true → find p xs ≢ none
  find_total a xs m h e = cc (find-none xs e m)

  pub In-filter : {a : A} (xs : List A) → In a (filter p xs) → In a xs × (p a ≡ true)
  In-filter [] m = elim m [ ]
  In-filter {a} (x ∷ xs) m = elim (Bool-cases (p x)) [
    | inl e ↦ elim (In-cons (let k : In a (x ∷ filter p xs) = rw e at m in k)) [
      | inl same ↦ (rw same here, rw same e)
      | inr later ↦ let (k, q) = In-filter xs later in (there k, q)
    ]
    | inr e ↦ let (k, q) = In-filter xs (rw e at m) in (there k, q)
  ]

  pub filter-In : {a : A} (xs : List A) → In a xs → p a ≡ true → In a (filter p xs)
  filter-In [] m h = elim m [ ]
  filter-In (x ∷ xs) here h = rw h here
  filter-In (x ∷ xs) (there m) h = elim (Bool-cases (p x)) [
    | inl e ↦ rw e (there (filter-In xs m h))
    | inr e ↦ rw e (filter-In xs m h)
  ]

  pub length-filter-le : (xs : List A) → length (filter p xs) ≤ length xs
  length-filter-le [] = omega arith
  length-filter-le (x ∷ xs) = ground (arith, length-filter-le xs)
