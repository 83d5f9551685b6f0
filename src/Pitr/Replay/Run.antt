-- ===== src/Pitr/Replay/Run.antt =====
-- mysql-wrapper/src/pitr.rs: what the run of `binlogs_to_replay` holds and where it ends.
use mysql_ha.Prelude.{
  ℕ, ◌+◌, ◌%◌, ◌≤◌, ◌<◌, ◌≡◌, refl, sym, ap, ◌∙◌, inl, inr, true, false, Option, none, some, List,
  [], ◌∷◌, ◌++◌, append_assoc, append-nil, arith, Bool-cases, last, In, In.here, All,
  In-append_left, In-append_right, In-append_cases, In-cons, All-In, All-of_In, In-sort_by, Str,
  str_eq, str_eq_iff, u64_mod, not_gt, sort_by, IsSorted, sort_by-In, sort_by-IsSorted,
}
use mysql_ha.Pitr.Binlog.{binlog_seq, binlog_name_cmp, HasSeq, HasSeq-some, binlog_name_cmp-IsOrder}
use mysql_ha.Pitr.Replay.{
  BinlogGap, BinlogReplayPlan, from_start, is_hole, replay_loop, binlogs_to_replay,
}

-- `y` carries the sequence number after that of `x`.
abbrev pub Follows : Str → Str → Type 0
Follows x y = (m : ℕ) × (binlog_seq x ≡ some m) × (binlog_seq y ≡ some ((m + 1) % u64_mod))

-- Each file follows the one before it.
abbrev pub Chain : List Str → Type 0
Chain [] = Unit
Chain (x ∷ []) = Unit
Chain (x ∷ y ∷ r) = Follows x y × Chain (y ∷ r)

-- Where a run ends: at the end of the files, or in front of a file that does not follow its last
-- one, and the gap names the two.
abbrev pub Ends : List Str → List Str → Option BinlogGap → Type 0
Ends run [] none = Unit
Ends run [] (some g) = ⊥
Ends run (f ∷ fs) none = ⊥
Ends run (f ∷ fs) (some g) =
    (g.next_present ≡ f) × (last run ≡ some g.after) × (¬ Follows g.after f)

pub Follows-of_no_hole :
    (x y : Str) → HasSeq x → HasSeq y → is_hole (binlog_seq x) (binlog_seq y) ≡ false → Follows x y
unfolding is_hole
Follows-of_no_hole x y hx hy h =
    let (m, p) = HasSeq-some x hx in
    let (n, q) = HasSeq-some y hy in
    let next : n ≡ (m + 1) % u64_mod = let k = rw (p, q) at h in ground arith in
    (m, p, q ∙ ap some next)

pub not_Follows_of_hole : (x y : Str) → is_hole (binlog_seq x) (binlog_seq y) ≡ true → ¬ Follows x y
unfolding is_hole
not_Follows_of_hole x y h (m, p, q) = let k = rw (p, q) at h in ground arith

pub last-append_one : (xs : List Str) (x : Str) → last (xs ++ (x ∷ [])) ≡ some x
last-append_one [] x = refl
last-append_one (y ∷ []) x = refl
last-append_one (y ∷ z ∷ r) x = last-append_one (z ∷ r) x

-- What the loop makes of `files` behind a run whose last file is `l`.
abbrev Loops : List Str → Str → List Str → BinlogReplayPlan → Type 0
Loops run l files plan =
    (taken : List Str) × (rest : List Str) × (files ≡ taken ++ rest)
    × (plan.run ≡ run ++ taken)
    × Chain (l ∷ taken)
    × Ends plan.run rest plan.gap

replay_loop-Loops :
    (run : List Str) (l : Str) (files : List Str)
    → last run ≡ some l
    → HasSeq l
    → All HasSeq files
    → Loops run l files (replay_loop run (binlog_seq l) files)
unfolding replay_loop
replay_loop-Loops run l [] h hl seqs = ([], [], refl, sym (append-nil run), tt, tt)
replay_loop-Loops run l (name ∷ files) h hl seqs =
    elim (Bool-cases (is_hole (binlog_seq l) (binlog_seq name))) [
      | inl hole ↦ rw hole (
        [],
        name ∷ files,
        refl,
        sym (append-nil run),
        tt,
        (refl, rw h refl, rw h (not_Follows_of_hole l name hole)),
      )
      | inr joined ↦
          let (taken, rest, split, eq, chain, ends) =
            replay_loop-Loops (run ++ (name ∷ [])) name files (last-append_one run name) seqs.0
              seqs.1 in
          rw joined (
            name ∷ taken,
            rest,
            ap (λ t. name ∷ t) split,
            eq ∙ append_assoc run (name ∷ []) taken,
            (Follows-of_no_hole l name hl seqs.0 joined, chain),
            ends,
          )
    ]

pub from_start-some :
    (start : Str) (files : List Str) {tail : List Str}
    → from_start start files ≡ some tail
    → (pre : List Str) × (r : List Str) × (files ≡ pre ++ tail) × (tail ≡ start ∷ r)
unfolding from_start
from_start-some start [] h = cc
from_start-some start (f ∷ fs) {tail} h = elim (Bool-cases (str_eq f start)) [
  | inl e ↦
      let same : f ∷ fs ≡ tail = ground arith in
      ([], fs, same, sym same ∙ ap (λ t. t ∷ fs) ((str_eq_iff f start).0 e))
  | inr e ↦
      let (pre, r, p, q) = from_start-some start fs {tail = tail} (rw e at h) in
      (f ∷ pre, r, ap (λ t. f ∷ t) p, q)
]

pub from_start_total :
    (start : Str) (files : List Str)
    → In start files
    → (tail : List Str) × (from_start start files ≡ some tail)
unfolding from_start
from_start_total start [] m = elim m [ ]
from_start_total start (f ∷ fs) m = elim (Bool-cases (str_eq f start)) [
  | inl e ↦ (f ∷ fs, rw e)
  | inr e ↦ rw e (
      from_start_total start fs
        (elim (In-cons m) [ inl same ↦ cc ((str_eq_iff f start).1 (sym same)) | inr k ↦ k ]))
]

-- In the order of their numbers, from a file on, the names carry them too.
pub tail-HasSeq :
    (files pre tail : List Str)
    → All HasSeq files
    → sort_by binlog_name_cmp files ≡ pre ++ tail
    → All HasSeq tail
tail-HasSeq files pre tail seqs split = All-of_In _ tail λ a m.
    All-In HasSeq files seqs
      (In-sort_by binlog_name_cmp files (rw split (In-append_right pre tail m)))

-- The sorted files are those in front of the start file, the run, which begins with the start file
-- and goes up by one at each step, and what is left; the run ends at the end of the files or at a
-- hole, which the gap names.
abbrev pub Replays : List Str → Str → BinlogReplayPlan → Type 0
Replays files start plan =
    (pre : List Str) × (rest : List Str) × (tail : List Str) × (sort_by binlog_name_cmp files
      ≡ pre ++ (plan.run ++ rest))
    × (plan.run ≡ start ∷ tail)
    × Chain plan.run
    × Ends plan.run rest plan.gap

binlogs_to_replay_found :
    (files : List Str) (start : Str) (r : List Str)
    → from_start start (sort_by binlog_name_cmp files) ≡ some (start ∷ r)
    → binlogs_to_replay files start ≡ replay_loop (start ∷ []) (binlog_seq start) r
unfolding binlogs_to_replay
binlogs_to_replay_found files start r e = rw (e, binlogs_to_replay)

-- Where the archive holds the start file and each of its names carries a sequence number, the replay
-- plan is a run that begins with the start file, in which each file carries the number after that of
-- the file before it; it follows the sorted listing, and stops only at the end of the listing or at
-- a file that does not carry the next number, and the gap names the files on the two sides.
pub binlogs_to_replay-Replays :
    (files : List Str) (start : Str)
    → All HasSeq files
    → In start files
    → Replays files start (binlogs_to_replay files start)
binlogs_to_replay-Replays files start seqs m =
    let sorted = sort_by binlog_name_cmp files in
    let (tail, e) = from_start_total start sorted (sort_by-In binlog_name_cmp files m) in
    let (pre, r, p, q) = from_start-some start sorted {tail = tail} e in
    let (first_seq, rest_seqs) =
      tail-HasSeq files pre (start ∷ r) seqs (p ∙ ap (λ t. pre ++ t) q) in
    let (taken, rest, split, eq, chain, ends) =
      replay_loop-Loops (start ∷ []) start r refl first_seq rest_seqs in
    rw (binlogs_to_replay_found files start r (e ∙ ap some q)) (
      pre,
      rest,
      taken,
      p ∙ ap (λ t. pre ++ t) (q ∙ ap (λ t. start ∷ t) split ∙ ap (λ t. t ++ rest) (sym eq)),
      eq,
      rw eq chain,
      ends,
    )

Ends-no_rest :
    {f : Str} (run rest : List Str) (gap : Option BinlogGap)
    → gap ≡ none
    → Ends run rest gap
    → ¬ In f rest
Ends-no_rest run [] gap h e m = elim m [ ]
Ends-no_rest run (x ∷ r) none h e m = e
Ends-no_rest run (x ∷ r) (some g) h e m = cc

In-IsSorted_append :
    {a b : Str} (pre post : List Str)
    → IsSorted binlog_name_cmp (pre ++ post)
    → In a pre
    → In b post
    → not_gt (binlog_name_cmp a b) ≡ true
In-IsSorted_append [] post s ma mb = elim ma [ ]
In-IsSorted_append (x ∷ pre) post s ma mb = elim (In-cons ma) [
  | inl same ↦ rw same (All-In _ (pre ++ post) s.0 (In-append_right pre post mb))
  | inr k ↦ In-IsSorted_append pre post s.1 k mb
]

seq-le :
    (a b : Str) (m n : ℕ)
    → binlog_seq a ≡ some m
    → binlog_seq b ≡ some n
    → not_gt (binlog_name_cmp a b) ≡ true
    → m ≤ n
unfolding binlog_name_cmp
seq-le a b m n p q h = ground arith

-- A plan without a gap is complete: where every name carries a sequence number, the run holds every
-- archived file whose number is above that of the start file.
pub binlogs_to_replay_complete :
    (files : List Str) (start f : Str) (m n : ℕ)
    → All HasSeq files
    → In start files
    → In f files
    → binlog_seq start ≡ some m
    → binlog_seq f ≡ some n
    → m < n
    → (binlogs_to_replay files start).gap ≡ none
    → In f (binlogs_to_replay files start).run
binlogs_to_replay_complete files start f m n seqs ms mf p q lt no_gap =
    let (pre, rest, tail, split, starts, chain, ends) =
      binlogs_to_replay-Replays files start seqs ms in
    let run = (binlogs_to_replay files start).run in
    let sorted = sort_by-IsSorted binlog_name_cmp files (binlog_name_cmp-IsOrder files seqs) in
    let at_start : In start (run ++ rest) = In-append_left run rest (rw starts here) in
    elim (In-append_cases pre (run ++ rest) (rw split at (sort_by-In binlog_name_cmp files mf))) [
      | inl early ↦
          let le =
            seq-le f start n m q p
              (In-IsSorted_append pre (run ++ rest) (rw split at sorted) early at_start) in
          absurd (omega arith)
      | inr late ↦ elim (In-append_cases run rest late) [
        | inl k ↦ k
        | inr k ↦ absurd (Ends-no_rest run rest _ no_gap ends k)
      ]
    ]
