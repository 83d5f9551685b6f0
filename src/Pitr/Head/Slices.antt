-- ===== src/Pitr/Head/Slices.antt =====
-- Slices of a list of bytes: what stands where, and what a longer list leaves as it is.
use mysql_ha.Prelude.{
  take-length-append, drop-length-append, ℕ, zero, suc, ◌+◌, ◌≤◌, ◌<◌, ◌≡◌, refl, sym, ap, ◌∙◌, inl,
  inr, true, List, [], ◌∷◌, ◌++◌, arith, leb, leb→le, le→leb, Bool-cases, length, take, drop,
  length-append,
}
use mysql_ha.Pitr.Head.{parsed, HeadError, slice}

module _ {ℓ} {A : Type ℓ} where
  pub drop-append : (n : ℕ) (xs ys : List A) → n ≤ length xs → drop n (xs ++ ys) ≡ drop n xs ++ ys
  drop-append zero xs ys h = refl
  drop-append (suc n) [] ys h = absurd (omega arith)
  drop-append (suc n) (x ∷ xs) ys h = drop-append n xs ys (omega arith)

  pub take-append : (n : ℕ) (xs ys : List A) → n ≤ length xs → take n (xs ++ ys) ≡ take n xs
  take-append zero xs ys h = refl
  take-append (suc n) [] ys h = absurd (omega arith)
  take-append (suc n) (x ∷ xs) ys h = rw (take-append n xs ys (omega arith)) refl

  length-drop : (n : ℕ) (xs : List A) → n ≤ length xs → length (drop n xs) + n ≡ length xs
  length-drop zero xs h = omega arith
  length-drop (suc n) [] h = absurd (omega arith)
  length-drop (suc n) (x ∷ xs) h = let e = length-drop n xs (omega arith) in omega arith

  length-drop-lt :
      (n : ℕ) (xs : List A) → 0 < length (drop n xs) → length (drop n xs) + n ≡ length xs
  length-drop-lt zero xs h = omega arith
  length-drop-lt (suc n) [] h = absurd (omega arith)
  length-drop-lt (suc n) (x ∷ xs) h = let e = length-drop-lt n xs h in omega arith

  drop-nil : (n : ℕ) → drop {A = A} n [] ≡ []
  drop-nil zero = refl
  drop-nil (suc n) = refl

  drop-drop_at : (m n k : ℕ) (xs : List A) → k ≡ m + n → drop n (drop m xs) ≡ drop k xs
  drop-drop_at zero n k xs e = let same : n ≡ k = omega arith in rw same refl
  drop-drop_at (suc m) n zero xs e = absurd (omega arith)
  drop-drop_at (suc m) n (suc k) [] e = drop-nil n
  drop-drop_at (suc m) n (suc k) (x ∷ xs) e = drop-drop_at m n k xs (omega arith)

  pub drop-drop : (m n : ℕ) (xs : List A) → drop n (drop m xs) ≡ drop (m + n) xs
  drop-drop m n xs = drop-drop_at m n (m + n) xs refl

parsed-inj : {A : Type 0} {a b : A} → parsed a ≡ parsed b → a ≡ b
parsed-inj e = cc

slice-inv :
    (at n : ℕ) (bytes : List ℕ) (e : HeadError) {x : List ℕ}
    → slice at n bytes e ≡ parsed x
    → (at + n ≤ length bytes) × (take n (drop at bytes) ≡ x)
unfolding slice
slice-inv at n bytes e h = elim (Bool-cases (leb (at + n) (length bytes))) [
  | inl fits ↦ (leb→le _ _ fits, parsed-inj (rw fits at h))
  | inr over ↦ absurd (cc (rw over at h))
]

-- A slice that is there is the same in a longer list.
pub slice-append :
    (at n : ℕ) (bytes more : List ℕ) (e : HeadError) {x : List ℕ}
    → slice at n bytes e ≡ parsed x
    → slice at n (bytes ++ more) e ≡ parsed x
unfolding slice
slice-append at n bytes more e h =
    let (fits, same) = slice-inv at n bytes e h in
    let long : leb (at + n) (length (bytes ++ more)) ≡ true =
      le→leb _ _ (omega (arith, length-append bytes more)) in
    let left = length-drop at bytes (omega arith) in
    rw (long, drop-append at bytes more (omega arith))
      (ap parsed (take-append n (drop at bytes) more (omega arith) ∙ same))

-- What stands at a position is what a slice of its length reads, and behind it comes the rest.
pub slice_at :
    (at : ℕ) (bytes x rest : List ℕ) (e : HeadError)
    → 0 < length x
    → drop at bytes ≡ x ++ rest
    → (slice at (length x) bytes e ≡ parsed x) × (drop (at + length x) bytes ≡ rest)
unfolding slice
slice_at at bytes x rest e some_ here_ =
    let total : length (drop at bytes) ≡ length x + length rest = rw here_ (length-append x rest) in
    let whole = length-drop-lt at bytes (omega arith) in
    let fits : leb (at + length x) (length bytes) ≡ true = le→leb _ _ (omega arith) in
    (
      rw (fits, here_) (ap parsed (take-length-append x rest)),
      sym (drop-drop at (length x) bytes) ∙ rw here_ (drop-length-append x rest),
    )
