-- ===== src/Gr/Majority/Partition.antt =====
-- mysql-wrapper/src/sql.rs and gr.rs: a partition leaves at most one side with a writable
-- primary, and a survivor that re-forms the group was fenced until then.
use mysql_ha.Prelude.{
  ℕ, ◌+◌, ◌*◌, ◌≤◌, ◌<◌, ◌≡◌, refl, sym, ap, ◌∙◌, ◌≢◌, inl, inr, true, false, ◌&&◌, Option, List,
  [], ◌∷◌, arith, Bool-cases, false_of_ne_true, length, Str,
}
use mysql_ha.Gr.State.{Answers, MemberRow}
use mysql_ha.Gr.Majority.{
  membership_fence_wanted, force, is_reachable, reachable_count, majority_loss_recovery_verdict,
  role_is_writable_primary,
}
use mathlib.Core.List.{Permᴰ}
use mysql_ha.Gr.Majority.Departed.{majority_loss_recovery_force_iff}

-- Two views of the same members, in the same order, in which no member is reachable from both.
abbrev pub Partitioned : List MemberRow → List MemberRow → Type 0
Partitioned [] [] = Unit {0}
Partitioned [] (b ∷ bs) = ⊥
Partitioned (a ∷ as_) [] = ⊥
Partitioned (a ∷ as_) (b ∷ bs) =
    (a.member_id ≡ b.member_id) × ((is_reachable a && is_reachable b) ≡ false) × Partitioned as_ bs

Partitioned-counts :
    (left right : List MemberRow)
    → Partitioned left right
    → (length left ≡ length right) × (reachable_count left + reachable_count right ≤ length left)
Partitioned-counts [] [] p = (refl, omega arith)
Partitioned-counts [] (b ∷ bs) p = absurd p
Partitioned-counts (a ∷ as_) [] p = absurd p
Partitioned-counts (a ∷ as_) (b ∷ bs) (same, apart, rest) =
    let (lengths, counts) = Partitioned-counts as_ bs rest in
    elim (Bool-cases (is_reachable a)) [
      | inl ra ↦ elim (Bool-cases (is_reachable b)) [
        | inl rb ↦ cc (let k : true ≡ false = rw (ra, rb) at apart in k)
        | inr lb ↦ (cc, rw (ra, lb) omega arith)
      ]
      | inr la ↦ elim (Bool-cases (is_reachable b)) [
        | inl rb ↦ (cc, rw (la, rb) omega arith)
        | inr lb ↦ (cc, rw (la, lb) omega arith)
      ]
    ]

writable_majority :
    (members : List MemberRow) (self_uuid : Str)
    → role_is_writable_primary members self_uuid ≡ true
    → length members < reachable_count members * 2
unfolding role_is_writable_primary
writable_majority [] self_uuid h = cc
writable_majority (m ∷ ms) self_uuid h = ground arith

-- In two views of the same members, listed in the same order, between which no member is reachable
-- from both, at most one has a writable primary, whichever members the two views belong to.
pub role_is_writable_primary_partition :
    (left right : List MemberRow) (left_uuid right_uuid : Str)
    → Partitioned left right
    → role_is_writable_primary left left_uuid ≡ true
    → role_is_writable_primary right right_uuid ≢ true
role_is_writable_primary_partition left right left_uuid right_uuid p l r =
    let (lengths, counts) = Partitioned-counts left right p in
    let a = writable_majority left left_uuid l in
    let b = writable_majority right right_uuid r in omega arith

-- Two views of the same members, each in an order of its own, in which no member is reachable from
-- both.
abbrev pub SplitViews : List MemberRow → List MemberRow → Type 0
SplitViews left right =
    (reordered : List MemberRow) × Permᴰ reordered right × Partitioned left reordered

reachable_count-cons :
    (m : MemberRow) (ms : List MemberRow)
    → reachable_count (m ∷ ms) ≡ reachable_count (m ∷ []) + reachable_count ms
reachable_count-cons m ms = elim (Bool-cases (is_reachable m)) [
  | inl r ↦ rw r omega arith
  | inr r ↦ rw r omega arith
]

sums : (a b c d n : ℕ) → a ≡ d → b ≡ c → a + (b + n) ≡ c + (d + n)
sums a b c d n e f = omega arith

-- The order of a view counts neither for its length nor for its reachable members.
Perm-counts :
    {xs ys : List MemberRow}
    → Permᴰ xs ys
    → (length xs ≡ length ys) × (reachable_count xs ≡ reachable_count ys)
Perm-counts Permᴰ.nil = (refl, refl)
Perm-counts (Permᴰ.cons {a = a} {b = b} {l₁ = xs} {l₂ = ys} same d) =
    let (lengths, counts) = Perm-counts d in
    let x = reachable_count-cons a xs in
    let y = reachable_count-cons b ys in
    let z : reachable_count (a ∷ []) ≡ reachable_count (b ∷ []) =
      ap (λ m. reachable_count (m ∷ [])) same in
    (
      omega (arith, lengths),
      x
          ∙ ap (λ n. n + reachable_count xs) z
          ∙ ap (λ n. reachable_count (b ∷ []) + n) counts
          ∙ sym y,
    )
Perm-counts (Permᴰ.swap {a = a} {b = b} {a' = c} {b' = d} {l = xs} e f) =
    let p =
      reachable_count-cons a (b ∷ xs)
      ∙ ap (λ n. reachable_count (a ∷ []) + n) (reachable_count-cons b xs) in
    let q =
      reachable_count-cons c (d ∷ xs)
      ∙ ap (λ n. reachable_count (c ∷ []) + n) (reachable_count-cons d xs) in
    let x : reachable_count (a ∷ []) ≡ reachable_count (d ∷ []) =
      ap (λ m. reachable_count (m ∷ [])) e in
    let y : reachable_count (b ∷ []) ≡ reachable_count (c ∷ []) =
      ap (λ m. reachable_count (m ∷ [])) f in
    (
      omega arith,
      p
          ∙ sums (reachable_count (a ∷ [])) _ (reachable_count (c ∷ [])) _ (reachable_count xs) x y
          ∙ sym q,
    )
Perm-counts (Permᴰ.trans d e) =
    let (l, c) = Perm-counts d in let (m, k) = Perm-counts e in (l ∙ m, c ∙ k)

-- Of two such views at most one has a writable primary.
pub SplitViews-apart :
    (left right : List MemberRow) (left_uuid right_uuid : Str)
    → SplitViews left right
    → role_is_writable_primary left left_uuid ≡ true
    → role_is_writable_primary right right_uuid ≢ true
SplitViews-apart left right left_uuid right_uuid (reordered, order, p) l r =
    let (lengths, counts) = Partitioned-counts left reordered p in
    let (same_length, same_count) = Perm-counts order in
    let a = writable_majority left left_uuid l in
    let b = writable_majority right right_uuid r in omega arith

-- A view in which the survivor re-forms the group has no writable primary, whichever member asks.
pub force_no_writable_primary :
    (name : Option Str) (members : List MemberRow) (answers : Answers) (self_uuid : Str)
    → majority_loss_recovery_verdict name members answers ≡ force
    → role_is_writable_primary members self_uuid ≡ false
force_no_writable_primary name members answers self_uuid h = false_of_ne_true _ λ w.
    let (many, one, n, e, out) = (majority_loss_recovery_force_iff name members answers).0 h in
    let enough = writable_majority members self_uuid w in omega arith

-- Once the fence is armed, of two disjoint sides of the effective membership at most one is not
-- fenced: where a side may write, the other side may not.
pub membership_fence_partition :
    (left_online right_online effective_configured : ℕ)
    → left_online + right_online ≤ effective_configured
    → membership_fence_wanted left_online effective_configured true ≡ false
    → membership_fence_wanted right_online effective_configured true ≡ true
unfolding membership_fence_wanted
membership_fence_partition left_online right_online effective_configured disjoint writes =
    ground arith
