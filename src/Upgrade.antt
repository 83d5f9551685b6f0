-- ===== src/Upgrade.antt =====
-- mysql-wrapper/src/finish_upgrade.rs: whether a boot has an upgrade to finish (`decide`), and how the
-- names of orphaned tables are read from the disk (`orphan_table_name`) and quoted in SQL. A reason to
-- skip is a value in place of the source's text.
pub mod Pending
pub mod Quoting
use mysql_ha.Prelude.{
  ℕ, ◌+◌, compare, Ordering, Bool, true, false, Option, none, some, [], ◌∷◌, ◌++◌, ◌==◌,
  if◌then◌else◌, In.here, In.there, Str,
}

pub record ServerVersion : Type 0 where
  pub major : ℕ
  pub minor : ℕ
  pub patch : ℕ

-- A lexicographic order: the second comparison counts where the first finds no difference.
abbrev pub and_then : Ordering → Ordering → Ordering
and_then Ordering.eq o = o
and_then Ordering.lt o = Ordering.lt
and_then Ordering.gt o = Ordering.gt

-- The derived order: by major, minor and patch.
unfoldable pub cmp : ServerVersion → ServerVersion → Ordering
cmp a b =
    and_then (compare a.major b.major)
      (and_then (compare a.minor b.minor) (compare a.patch b.patch))

pub data History : Type 0 where
  absent unreadable : History
  newest : ServerVersion → Bool → History

pub data Skipped : Type 0 where
  no_history unreadable_history not_opened_yet newer_opened initialized_here already_served :
      Skipped

pub data Pended : Type 0 where
  never_served no_record : Pended

pub data Verdict : Type 0 where
  skip : Skipped → Verdict
  pending : Pended → Verdict

-- `s >= t`.
abbrev pub ge : ServerVersion → ServerVersion → Bool
ge s t = elim (cmp s t) [ Ordering.lt ↦ false | _ ↦ true ]

-- The end of `decide`, where this version opened the datadir last.
unfoldable pub decide_same : ServerVersion → Bool → Option ServerVersion → Verdict
decide_same binary true served = skip initialized_here
decide_same binary false none = pending no_record
decide_same binary false (some s) =
    if ge s binary then skip already_served else pending never_served

unfoldable pub decide : ServerVersion → History → Option ServerVersion → Verdict
decide binary absent served = skip no_history
decide binary unreadable served = skip unreadable_history
decide binary (newest version initialized_by_it) served = elim (cmp version binary) [
  | Ordering.lt ↦ skip not_opened_yet
  | Ordering.gt ↦ skip newer_opened
  | Ordering.eq ↦ decide_same binary initialized_by_it served
]

-- `name.replace('`', "``")` between backticks.
abbrev pub double_ticks : Str → Str
double_ticks [] = []
double_ticks (c ∷ name) =
    let rest = double_ticks name in if c == b'`' then b'`' ∷ b'`' ∷ rest else c ∷ rest

unfoldable pub quote_identifier : Str → Str
quote_identifier name = b'`' ∷ (double_ticks name ++ (b'`' ∷ []))
