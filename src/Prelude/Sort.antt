-- ===== src/Prelude/Sort.antt =====
-- `sort_by`: a stable sort by a comparison that returns an `Ordering`. The standard library fixes
-- its result, which is that of insertion, when the comparison is a total order.
use Prim.Native.Nat.{ℕ, zero, ◌<◌, Ordering, suc}
use mathlib.Core.Path.{◌≡◌, refl}
use mathlib.Core.Bool.{Bool, true, false}
use mathlib.Core.Logic.{◌⊎◌, inl, inr}
use mathlib.Core.List.{List, [], ◌∷◌}
use mathlib.Core.Option.{Option, none, some}
use native.Mathlib.Omega.{arith}
use mysql_ha.Prelude.Tests.{if◌then◌else◌, Bool-cases}
use mysql_ha.Prelude.Text.{Str, str_cmp}
use mysql_ha.Prelude.Lists.{In, In-cons, length, take, drop, get_elem?, All, All-of_In, All-In}

-- Not greater: the order that the sort puts its elements in.
abbrev pub not_gt : Ordering → Bool
not_gt Ordering.lt = true
not_gt Ordering.eq = true
not_gt Ordering.gt = false

module _ {ℓ} {A : Type ℓ} (cmp : A → A → Ordering) where
  unfoldable pub sort_insert : A → List A → List A
  sort_insert x [] = x ∷ []
  sort_insert x (y ∷ ys) = if not_gt (cmp x y) then x ∷ y ∷ ys else y ∷ sort_insert x ys

  unfoldable pub sort_by : List A → List A
  unfolding sort_insert
  sort_by [] = []
  sort_by (x ∷ xs) = sort_insert x (sort_by xs)

  -- Each element stands no later than any after it.
  abbrev pub IsSorted : List A → Type 0
  IsSorted [] = Unit
  IsSorted (x ∷ xs) = All (λ y. not_gt (cmp x y) ≡ true) xs × IsSorted xs

  In-sort_insert : {a : A} (x : A) (ys : List A) → In a (sort_insert x ys) → (a ≡ x) ⊎ In a ys
  unfolding sort_insert
  In-sort_insert x [] m = elim (In-cons m) [ inl e ↦ inl e | inr k ↦ inr k ]
  In-sort_insert {a} x (y ∷ ys) m = elim (Bool-cases (not_gt (cmp x y))) [
    | inl e ↦ In-cons (rw e at m)
    | inr e ↦ elim (In-cons (let k : In a (y ∷ sort_insert x ys) = rw e at m in k)) [
      | inl same ↦ inr (rw same In.here)
      | inr k ↦ elim (In-sort_insert x ys k) [ inl same ↦ inl same | inr j ↦ inr (In.there j) ]
    ]
  ]

  sort_insert-In : {a : A} (x : A) (ys : List A) → (a ≡ x) ⊎ In a ys → In a (sort_insert x ys)
  unfolding sort_insert
  sort_insert-In x [] (inl e) = rw e In.here
  sort_insert-In x [] (inr m) = elim m [ ]
  sort_insert-In x (y ∷ ys) (inl e) = elim (Bool-cases (not_gt (cmp x y))) [
    | inl first ↦ rw (first, e) In.here
    | inr later ↦ rw later (In.there (sort_insert-In x ys (inl e)))
  ]
  sort_insert-In {a} x (y ∷ ys) (inr m) = elim (Bool-cases (not_gt (cmp x y))) [
    | inl first ↦ rw first (In.there m)
    | inr later ↦ rw later (elim (In-cons m) [
      | inl same ↦ rw same In.here
      | inr k ↦ In.there (sort_insert-In x ys (inr k))
    ])
  ]

  -- Sorting neither adds nor drops an element.
  pub In-sort_by : {a : A} (xs : List A) → In a (sort_by xs) → In a xs
  unfolding sort_by
  In-sort_by [] m = elim m [ ]
  In-sort_by (x ∷ xs) m = elim (In-sort_insert x (sort_by xs) m) [
    | inl same ↦ rw same In.here
    | inr k ↦ In.there (In-sort_by xs k)
  ]

  pub sort_by-In : {a : A} (xs : List A) → In a xs → In a (sort_by xs)
  unfolding sort_by
  sort_by-In [] m = elim m [ ]
  sort_by-In (x ∷ xs) m = elim (In-cons m) [
    | inl same ↦ sort_insert-In x (sort_by xs) (inl same)
    | inr k ↦ sort_insert-In x (sort_by xs) (inr (sort_by-In xs k))
  ]

  length-sort_insert : (x : A) (ys : List A) → length (sort_insert x ys) ≡ suc (length ys)
  unfolding sort_insert
  length-sort_insert x [] = refl
  length-sort_insert x (y ∷ ys) = ground (arith, length-sort_insert x ys)

  pub length-sort_by : (xs : List A) → length (sort_by xs) ≡ length xs
  unfolding sort_by
  length-sort_by [] = refl
  length-sort_by (x ∷ xs) = omega (arith, length-sort_insert x (sort_by xs), length-sort_by xs)

  -- What a comparison must satisfy, on the elements at hand, for the sort to sort.
  pub record IsOrder (xs : List A) : Type ℓ where
    pub connex : (x y : A) → In x xs → In y xs → not_gt (cmp x y) ≡ false → not_gt (cmp y x) ≡ true
    pub trans :
        (x y z : A)
        → In x xs
        → In y xs
        → In z xs
        → not_gt (cmp x y) ≡ true
        → not_gt (cmp y z) ≡ true
        → not_gt (cmp x z) ≡ true

  IsOrder-tail : {x : A} {xs : List A} → IsOrder (x ∷ xs) → IsOrder xs
  IsOrder-tail o = record {
    connex = λ x y hx hy. o.connex x y (In.there hx) (In.there hy);
    trans = λ x y z hx hy hz. o.trans x y z (In.there hx) (In.there hy) (In.there hz);
  }

  sort_insert-IsSorted :
      (x : A) (ys zs : List A)
      → IsOrder (x ∷ zs)
      → ((a : A) → In a ys → In a zs)
      → IsSorted ys
      → IsSorted (sort_insert x ys)
  unfolding sort_insert
  sort_insert-IsSorted x [] zs o sub s = (tt, tt)
  sort_insert-IsSorted x (y ∷ ys) zs o sub s = elim (Bool-cases (not_gt (cmp x y))) [
    | inl e ↦ rw e (
      (
        e,
        All-of_In _ ys (λ a m.
            o.trans x y a In.here (In.there (sub y In.here)) (In.there (sub a (In.there m))) e
              (All-In _ ys s.0 m)),
      ),
      s,
    )
    | inr e ↦ rw e (
      All-of_In _ (sort_insert x ys) (λ a m. elim (In-sort_insert x ys m) [
        | inl same ↦ rw same (o.connex x y In.here (In.there (sub y In.here)) e)
        | inr k ↦ All-In _ ys s.0 k
      ]),
      sort_insert-IsSorted x ys zs o (λ a m. sub a (In.there m)) s.1,
    )
  ]

  -- Where the comparison is a total preorder on the elements, the result is sorted.
  pub sort_by-IsSorted : (xs : List A) → IsOrder xs → IsSorted (sort_by xs)
  unfolding sort_by
  sort_by-IsSorted [] o = tt
  sort_by-IsSorted (x ∷ xs) o =
      sort_insert-IsSorted x (sort_by xs) xs o (λ a m. In-sort_by xs m)
        (sort_by-IsSorted xs (IsOrder-tail o))

-- `str_cmp` is a total preorder.
pub str_cmp-connex : (a b : Str) → not_gt (str_cmp a b) ≡ false → not_gt (str_cmp b a) ≡ true
str_cmp-connex [] [] h = refl
str_cmp-connex [] (y ∷ ys) h = cc
str_cmp-connex (x ∷ xs) [] h = refl
str_cmp-connex (x ∷ xs) (y ∷ ys) h = ground (arith, str_cmp-connex xs ys)

pub str_cmp_trans :
    (a b c : Str)
    → not_gt (str_cmp a b) ≡ true
    → not_gt (str_cmp b c) ≡ true
    → not_gt (str_cmp a c) ≡ true
str_cmp_trans [] [] c h k = k
str_cmp_trans [] (y ∷ ys) [] h k = refl
str_cmp_trans [] (y ∷ ys) (z ∷ zs) h k = refl
str_cmp_trans (x ∷ xs) [] c h k = cc
str_cmp_trans (x ∷ xs) (y ∷ ys) [] h k = cc
str_cmp_trans (x ∷ xs) (y ∷ ys) (z ∷ zs) h k = ground (arith, str_cmp_trans xs ys zs)

-- `max_by`: of two that compare equal the later one is kept.
unfoldable pub max_by_from {ℓ} : {A : Type ℓ} → (A → A → Ordering) → A → List A → A
max_by_from cmp best [] = best
max_by_from cmp best (x ∷ xs) = max_by_from cmp (if not_gt (cmp best x) then x else best) xs

unfoldable pub max_by {ℓ} : {A : Type ℓ} → (A → A → Ordering) → List A → Option A
unfolding max_by_from
max_by cmp [] = none
max_by cmp (x ∷ xs) = some (max_by_from cmp x xs)

-- The element that `max_by` keeps is one of those given, and none is greater.
abbrev pub IsMax {ℓ} : {A : Type ℓ} → (A → A → Ordering) → A → List A → Type ℓ
IsMax cmp r xs = In r xs × ((x : _) → In x xs → not_gt (cmp x r) ≡ true)

module _ {ℓ} {A : Type ℓ} (cmp : A → A → Ordering)
    (connex : (x y : A) → not_gt (cmp x y) ≡ false → not_gt (cmp y x) ≡ true)
    (trans : (x y z : A)
      → not_gt (cmp x y) ≡ true
      → not_gt (cmp y z) ≡ true
      → not_gt (cmp x z) ≡ true) where
  reflexive : (x : A) → not_gt (cmp x x) ≡ true
  reflexive x = elim (Bool-cases (not_gt (cmp x x))) [ inl e ↦ e | inr e ↦ connex x x e ]

  max_by_from-IsMax : (best : A) (xs : List A) → IsMax cmp (max_by_from cmp best xs) (best ∷ xs)
  unfolding max_by_from
  max_by_from-IsMax best [] =
      (In.here, λ x m. elim (In-cons m) [ inl e ↦ rw e (reflexive best) | inr k ↦ elim k [ ] ])
  max_by_from-IsMax best (x ∷ xs) = elim (Bool-cases (not_gt (cmp best x))) [
    | inl e ↦
        let (m, above) = max_by_from-IsMax x xs in
        rw e (
          In.there m,
          λ y k. elim (In-cons k) [
            | inl same ↦ rw same (trans best x _ e (above x In.here))
            | inr j ↦ above y j
          ],
        )
    | inr e ↦
        let (m, above) = max_by_from-IsMax best xs in
        rw e (
          elim (In-cons m) [ inl s ↦ rw s In.here | inr j ↦ In.there (In.there j) ],
          λ y k. elim (In-cons k) [
            | inl same ↦ rw same (above best In.here)
            | inr j ↦ elim (In-cons j) [
              | inl same ↦ rw same (trans x best _ (connex best x e) (above best In.here))
              | inr i ↦ above y (In.there i)
            ]
          ],
        )
  ]

  pub max_by-IsMax : (xs : List A) {r : A} → max_by cmp xs ≡ some r → IsMax cmp r xs
  unfolding max_by
  max_by-IsMax [] h = cc
  max_by-IsMax (x ∷ xs) {r} h =
      let same : max_by_from cmp x xs ≡ r = ground arith in rw (← same) (max_by_from-IsMax x xs)

-- The element at `i` of a sorted list stands among the first `i + 1`, and before all that follow.
pub IsSorted-split {ℓ} :
    {A : Type ℓ} (cmp : A → A → Ordering) (xs : List A) (i : ℕ)
    → IsSorted cmp xs
    → i < length xs
    → (a : A) × (get_elem? xs i ≡ some a)
      × In a (take (suc i) xs)
      × In a (drop i xs)
      × ((f : A) → In f (drop (suc i) xs) → not_gt (cmp a f) ≡ true)
IsSorted-split cmp [] i s h = absurd (omega arith)
IsSorted-split cmp (x ∷ xs) zero s h = (x, refl, In.here, In.here, λ f m. All-In _ xs s.0 m)
IsSorted-split cmp (x ∷ xs) (suc i) s h =
    let (a, e, early, at, later) = IsSorted-split cmp xs i s.1 (omega arith) in
    (a, e, In.there early, at, later)
