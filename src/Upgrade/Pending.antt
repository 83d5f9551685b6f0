-- ===== src/Upgrade/Pending.antt =====
-- mysql-wrapper/src/finish_upgrade.rs: when an upgrade is pending.
use mysql_ha.Prelude.{
  ℕ, compare, Ordering, ◌≡◌, refl, ◌↔◌, ◌⊎◌, inl, inr, Bool, true, false, Option, none, some, arith,
  Bool-cases,
}
use mysql_ha.Upgrade.{
  ServerVersion, cmp, ge, History, absent, unreadable, newest, pending, Pended, no_record,
  never_served, decide, decide_same, and_then,
}

compare-eq : (a b : ℕ) → compare a b ≡ Ordering.eq → a ≡ b
compare-eq a b h = ground arith

compare_refl : (a : ℕ) → compare a a ≡ Ordering.eq
compare_refl a = ground arith

cmp_refl : (v : ServerVersion) → cmp v v ≡ Ordering.eq
unfolding cmp
cmp_refl v = rw (compare_refl v.major, compare_refl v.minor) (compare_refl v.patch)

and_then-eq : (o p : Ordering) → and_then o p ≡ Ordering.eq → (o ≡ Ordering.eq) × (p ≡ Ordering.eq)
and_then-eq Ordering.eq p h = (refl, h)
and_then-eq Ordering.lt p h = cc
and_then-eq Ordering.gt p h = cc

abbrev version_of : ℕ → ℕ → ℕ → ServerVersion
version_of major minor patch = record { major = major; minor = minor; patch = patch }

same_version : (a b c x y z : ℕ) → a ≡ x → b ≡ y → c ≡ z → version_of a b c ≡ version_of x y z
same_version a b c x y z p q r = rw (p, q, r) refl

cmp-eq : (a b : ServerVersion) → cmp a b ≡ Ordering.eq → a ≡ b
unfolding cmp
cmp-eq a b h =
    let (major, rest) = and_then-eq (compare a.major b.major) _ h in
    let (minor, patch) = and_then-eq (compare a.minor b.minor) _ rest in
    same_version _ _ _ _ _ _ (compare-eq _ _ major) (compare-eq _ _ minor) (compare-eq _ _ patch)

-- The server step of the upgrade to this version was begun on a datadir that an older server made, and
-- no boot of this version or of a newer one is recorded to have served it.
abbrev pub IsInterrupted : ServerVersion → History → Option ServerVersion → Type 0
IsInterrupted binary history served =
    (history ≡ newest binary false)
    × ((served ≡ none) ⊎ ((s : ServerVersion) × (served ≡ some s) × (ge s binary ≡ false)))

Ordering-cases : (o : Ordering) → (o ≡ Ordering.eq) ⊎ ((o ≡ Ordering.lt) ⊎ (o ≡ Ordering.gt))
Ordering-cases Ordering.eq = inl refl
Ordering-cases Ordering.lt = inr (inl refl)
Ordering-cases Ordering.gt = inr (inr refl)

decide_same-pending :
    (binary : ServerVersion) (initialized_by_it : Bool) (served : Option ServerVersion)
    {why : Pended}
    → decide_same binary initialized_by_it served ≡ pending why
    → (initialized_by_it ≡ false)
      × ((served ≡ none) ⊎ ((s : ServerVersion) × (served ≡ some s) × (ge s binary ≡ false)))
unfolding decide_same
decide_same-pending binary true served h = cc
decide_same-pending binary false none h = (refl, inl refl)
decide_same-pending binary false (some s) h = elim (Bool-cases (ge s binary)) [
  | inl later ↦ absurd (cc (rw (decide_same, later) at h))
  | inr earlier ↦ (refl, inr (s, refl, earlier))
]

decide-IsInterrupted :
    (binary : ServerVersion) (history : History) (served : Option ServerVersion) {why : Pended}
    → decide binary history served ≡ pending why
    → IsInterrupted binary history served
unfolding decide
decide-IsInterrupted binary absent served h = cc
decide-IsInterrupted binary unreadable served h = cc
decide-IsInterrupted binary (newest version initialized_by_it) served {why} h =
    elim (Ordering-cases (cmp version binary)) [
      | inr (inl older) ↦ absurd (cc (rw (decide, older) at h))
      | inr (inr newer) ↦ absurd (cc (rw (decide, newer) at h))
      | inl same ↦
          let (made, record_) =
            decide_same-pending binary initialized_by_it served {why = why}
              (rw (decide, same) at h) in
          (rw (cmp-eq version binary same, made) refl, record_)
    ]

interrupted-decide :
    (binary : ServerVersion) (history : History) (served : Option ServerVersion)
    → IsInterrupted binary history served
    → (why : Pended) × (decide binary history served ≡ pending why)
unfolding decide decide_same
interrupted-decide binary history served (made, inl unserved) =
    (no_record, rw (made, unserved) (rw (cmp_refl binary, decide) refl))
interrupted-decide binary history served (made, inr (s, record_, earlier)) =
    (never_served, rw (made, record_) (rw (cmp_refl binary, decide) (rw earlier refl)))

-- A boot finishes an upgrade exactly when this version was the last to open the datadir without having
-- initialized it, and either no version is recorded to have served it or only an older one.
pub decide_pending_iff :
    (binary : ServerVersion) (history : History) (served : Option ServerVersion)
    → ((why : Pended) × (decide binary history served ≡ pending why))
      ↔ IsInterrupted binary history served
decide_pending_iff binary history served = (
  λ (why, h). decide-IsInterrupted binary history served {why = why} h,
  interrupted-decide binary history served,
)
