-- ===== src/Gr/Watch/Reform.antt =====
-- mysql-wrapper/src/gr.rs: when and how often `majority_watch` re-forms the group.
use mysql_ha.Prelude.{
  ℕ, zero, suc, ◌+◌, ◌≤◌, ◌≡◌, refl, sym, ap, subst, ◌⊎◌, inl, inr, Bool, true, false, not, some,
  List, [], ◌∷◌, map, arith, if◌then◌else◌, Bool-cases, Option-cases, all, filter, In, In.here,
  In.there, In-cons, filter-In, Str, str_eq, str_eq_iff, str_eq_refl,
}
use mysql_ha.Gr.State.{PeerAnswer, not_ready, unreachable, Answers, MemberRow}
use mysql_ha.Gr.Bootstrap.{GtidCompare}
use mysql_ha.Gr.Majority.{answer_of, is_reachable, reachable_count}
use mysql_ha.Gr.Majority.Departed.{ProvablyOut, majority_loss_recovery_force_iff}
use mysql_ha.Gr.Watch.{
  WatchConfig, Watch, Round, force_max_attempts, initial, answers_of, holds_nothing_more, turn,
  watch_after, bootstraps,
}
use mysql_ha.Gr.Watch.Turns.{ForceRound, rests, lift_fails, dwells, reforms, turn-TurnCase}

-- The history, newest round first, ends in so many rounds with the verdict to re-form; between
-- them stand only rounds in which the fence could not be lifted.
abbrev pub Dwelt : ℕ → List Round → Type 0
Dwelt zero earlier = Unit {0}
Dwelt (suc k) [] = ⊥
Dwelt (suc k) (r ∷ earlier) =
    (ForceRound r × Dwelt k earlier) ⊎ ((r.clear_succeeds ≡ false) × Dwelt (suc k) earlier)

Dwelt-mono : (k n : ℕ) (earlier : List Round) → k ≤ n → Dwelt n earlier → Dwelt k earlier
Dwelt-mono zero n earlier le d = tt
Dwelt-mono (suc k) zero earlier le d = absurd (omega arith)
Dwelt-mono (suc k) (suc n) [] le d = absurd d
Dwelt-mono (suc k) (suc n) (r ∷ earlier) le (inl (f, d)) =
    inl (f, Dwelt-mono k n earlier (omega arith) d)
Dwelt-mono (suc k) (suc n) (r ∷ earlier) le (inr (l, d)) =
    inr (l, Dwelt-mono (suc k) (suc n) earlier le d)

Dwelt-skip :
    (k : ℕ) (r : Round) (earlier : List Round)
    → r.clear_succeeds ≡ false
    → Dwelt k earlier
    → Dwelt k (r ∷ earlier)
Dwelt-skip zero r earlier l d = tt
Dwelt-skip (suc k) r earlier l d = inr (l, d)

Dwelt-of : {j k : ℕ} (earlier : List Round) → j ≡ k → Dwelt k earlier → Dwelt j earlier
Dwelt-of earlier e d = subst (λ (n : ℕ). Dwelt n earlier) (sym e) d

module _ (c : WatchConfig) (fenced : Bool) where
  abbrev pub after : List Round → Watch
  after = watch_after c (initial c fenced)

  -- The counter of rounds never exceeds the rounds that the history has seen.
  after-Dwelt : (history : List Round) → Dwelt (after history).consecutive_force history
  unfolding watch_after
  after-Dwelt [] = tt
  after-Dwelt (r ∷ earlier) = elim (turn-TurnCase c (after earlier) r) [
    | rests cf at quiet ↦ Dwelt-of (r ∷ earlier) cf tt
    | lift_fails stuck cf at quiet ↦
        Dwelt-of (r ∷ earlier) cf (Dwelt-skip _ r earlier stuck (after-Dwelt earlier))
    | dwells f cf at quiet ↦ Dwelt-of (r ∷ earlier) cf (inl (f, after-Dwelt earlier))
    | reforms members e f on cf at ↦ Dwelt-of (r ∷ earlier) cf tt
  ]

  -- A turn bootstraps the group only after the verdict to re-form it in this round and in fourteen
  -- rounds before it, with nothing between them but rounds in which the fence could not be lifted.
  pub bootstrap_dwells :
      (r : Round) (earlier : List Round)
      → bootstraps (turn c (after earlier) r).actions ≡ true
      → ForceRound r × Dwelt 14 earlier
  bootstrap_dwells r earlier h = elim (turn-TurnCase c (after earlier) r) [
    | rests cf at quiet ↦ absurd (cc)
    | lift_fails stuck cf at quiet ↦ absurd (cc)
    | dwells f cf at quiet ↦ absurd (cc)
    | reforms members e f on cf at ↦
        ((members, e, f), Dwelt-mono 14 _ earlier (omega (arith, on.0)) (after-Dwelt earlier))
  ]

  -- How many turns of a history bootstrap the group.
  unfoldable pub reforms_in : List Round → ℕ
  reforms_in [] = 0
  reforms_in (r ∷ earlier) =
      let before = reforms_in earlier in
      if bootstraps (turn c (after earlier) r).actions then before + 1 else before

  reforms_le_attempts :
      (history : List Round)
      → (reforms_in history ≤ (after history).attempts)
        × ((after history).attempts ≤ force_max_attempts)
  unfolding watch_after reforms_in
  reforms_le_attempts [] = (omega arith, omega arith)
  reforms_le_attempts (r ∷ earlier) =
      let (few, capped) = reforms_le_attempts earlier in
      elim (turn-TurnCase c (after earlier) r) [
        | rests cf at quiet ↦ (rw (quiet, at) few, rw at capped)
        | lift_fails stuck cf at quiet ↦ (rw (quiet, at) few, rw at capped)
        | dwells f cf at quiet ↦ (rw (quiet, at) few, rw at capped)
        | reforms members e f on cf at ↦
            let left = on.1 in
            elim (Bool-cases (bootstraps (turn c (after earlier) r).actions)) [
              | inl b ↦ (rw (b, at) (omega arith), rw at (omega arith))
              | inr b ↦ (rw (b, at) (omega arith), rw at (omega arith))
            ]
      ]

  -- Over the whole life of the watcher the group is bootstrapped at most three times.
  pub reforms_capped : (history : List Round) → reforms_in history ≤ force_max_attempts
  reforms_capped history =
      omega (arith, (reforms_le_attempts history).0, (reforms_le_attempts history).1)

-- The answer gives a set of transactions that this node's own set includes.
abbrev pub Covered : GtidCompare → Str → PeerAnswer → Type 0
Covered gtid_compare mine (PeerAnswer.state s) =
    (theirs : Str) × (rest : Bool) × (s.gtid_executed ≡ some theirs)
    × (gtid_compare mine theirs ≡ some (true, rest))
Covered gtid_compare mine not_ready = ⊥
Covered gtid_compare mine unreachable = ⊥

Covered-of :
    (gtid_compare : GtidCompare) (mine : Str) (answer : PeerAnswer)
    → holds_nothing_more gtid_compare mine answer ≡ true
    → Covered gtid_compare mine answer
unfolding holds_nothing_more
Covered-of gtid_compare mine (PeerAnswer.state s) h = elim (Option-cases s.gtid_executed) [
  | inl e ↦ cc (let k : false ≡ true = rw (e, holds_nothing_more) at h in k)
  | inr (theirs, e) ↦ elim (Option-cases (gtid_compare mine theirs)) [
    | inl n ↦ cc (let k : false ≡ true = rw (e, holds_nothing_more, n) at h in k)
    | inr ((sub, rest), n) ↦
        let k : sub ≡ true = rw (e, holds_nothing_more, n) at h in (theirs, rest, e, rw k at n)
  ]
]
Covered-of gtid_compare mine not_ready h = cc
Covered-of gtid_compare mine unreachable h = cc

all-In :
    (p : Str × PeerAnswer → Bool) {x : Str × PeerAnswer} (xs : Answers)
    → all p xs ≡ true
    → In x xs
    → p x ≡ true
all-In p [] h m = elim m [ ]
all-In p (x ∷ xs) h here = ground arith
all-In p (x ∷ xs) h (there m) = all-In p xs (ground arith) m

module _ (answer_from : Str → PeerAnswer) where
  answered : MemberRow → Str × PeerAnswer
  answered m = (m.host, answer_from m.host)

  In-answered : {m : MemberRow} (ms : List MemberRow) → In m ms → In (answered m) (map answered ms)
  In-answered [] i = elim i [ ]
  In-answered (x ∷ ms) here = In.here
  In-answered (x ∷ ms) (there i) = In.there (In-answered ms i)

  answer_of-answered :
      {m : MemberRow} (ms : List MemberRow)
      → In m ms
      → answer_of (map answered ms) m.host ≡ some (answer_from m.host)
  unfolding answered
  answer_of-answered [] i = elim i [ ]
  answer_of-answered {m} (x ∷ ms) i = elim (Bool-cases (str_eq x.host m.host)) [
    | inl same ↦
        let e = (str_eq_iff x.host m.host).0 same in rw same (ap (λ h. some (answer_from h)) e)
    | inr other ↦ elim (In-cons i) [
      | inl own ↦ cc (
          let k : str_eq m.host m.host ≡ false = rw (sym own) at other in
          rw (str_eq_refl m.host) at k)
      | inr later ↦ rw other (answer_of-answered ms later)
    ]
  ]

-- A turn bootstraps the group only where the view has one reachable member, the own group's name
-- is readable, and each unreachable member's wrapper answered in this round under that name,
-- reported no active group or a lone recovery, and gave a set of transactions that this node's own
-- set includes.
pub bootstrap_proven :
    (c : WatchConfig) (w : Watch) (r : Round)
    → bootstraps (turn c w r).actions ≡ true
    → (members : List MemberRow) × (r.members ≡ some members)
      × (reachable_count members ≡ 1)
      × (name : Str) × (r.group_name ≡ some name)
      × (mine : Str) × (r.executed_gtid_set ≡ some mine)
      × ((m : MemberRow)
          → In m members
          → is_reachable m ≡ false
          → ProvablyOut name (some (r.answer_from m.host))
            × Covered r.gtid_compare mine (r.answer_from m.host))
unfolding answered
bootstrap_proven c w r h = elim (turn-TurnCase c w r) [
  | rests cf at quiet ↦ absurd (cc)
  | lift_fails stuck cf at quiet ↦ absurd (cc)
  | dwells f cf at quiet ↦ absurd (cc)
  | reforms members e f (dwelt, left, mine, x, nothing) cf at ↦
      let (many, one, name, known, out) =
        (majority_loss_recovery_force_iff r.group_name members (answers_of r members)).0 f in
      (
        members,
        e,
        one,
        name,
        known,
        mine,
        x,
        λ m i lost.
            let listed = filter-In (λ y. not (is_reachable y)) members i (rw lost refl) in
            (
              subst (ProvablyOut name)
                  (answer_of-answered r.answer_from (filter (λ y. not (is_reachable y)) members)
                    listed)
                  (out m i lost),
              Covered-of r.gtid_compare mine (r.answer_from m.host) (
                  all-In (λ a. holds_nothing_more r.gtid_compare mine a.1) (answers_of r members)
                    nothing
                    (In-answered r.answer_from (filter (λ y. not (is_reachable y)) members)
                      listed)),
            ),
      )
]
