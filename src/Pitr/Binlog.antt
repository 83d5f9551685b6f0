-- ===== src/Pitr/Binlog.antt =====
-- mysql-wrapper/src/pitr.rs: binlog file names, ordered by their numeric sequence.
use mysql_ha.Prelude.{
  ℕ, ◌<◌, ◌≡◌, Bool, true, false, Option, none, some, compare, Ordering, arith, ltb, Str, List,
  str_cmp, rsplit_next, parse_u64, parse_u64-lt, u64_mod, All, All-In, IsOrder, is_some,
}

abbrev dot : ℕ
dot = b'.'

-- `rsplit` yields at least one part, so `next()?` never returns early here.
unfoldable pub binlog_seq : Str → Option ℕ
unfolding rsplit_next parse_u64
binlog_seq name = parse_u64 (rsplit_next dot name)

-- The arms of `match (binlog_seq(a), binlog_seq(b))`.
abbrev pub seq_cmp : Option ℕ → Option ℕ → Ordering → Ordering
seq_cmp (some x) (some y) text = compare x y
seq_cmp (some x) none text = text
seq_cmp none _ text = text

abbrev pub seq_lt : Option ℕ → Option ℕ → Bool → Bool
seq_lt (some a) (some b) text = ltb a b
seq_lt (some a) none text = text
seq_lt none _ text = text

unfoldable pub binlog_name_cmp : Str → Str → Ordering
binlog_name_cmp a b = seq_cmp (binlog_seq a) (binlog_seq b) (str_cmp a b)

abbrev is_lt : Ordering → Bool
is_lt Ordering.lt = true
is_lt _ = false

unfoldable pub binlog_is_closed : Str → Str → Bool
binlog_is_closed name active =
    seq_lt (binlog_seq name) (binlog_seq active) (is_lt (str_cmp name active))

-- A name that mysqld generates: its extension is a sequence number.
abbrev pub HasSeq : Str → Type 0
HasSeq name = is_some (binlog_seq name) ≡ true

pub HasSeq-some : (name : Str) → HasSeq name → (n : ℕ) × (binlog_seq name ≡ some n)
HasSeq-some name h = ground arith

pub binlog_seq-lt : (name : Str) {n : ℕ} → binlog_seq name ≡ some n → n < u64_mod
unfolding binlog_seq
binlog_seq-lt name e = parse_u64-lt (rsplit_next dot name) e

-- On names with a sequence number the comparison is a total preorder.
pub binlog_name_cmp-IsOrder : (files : List Str) → All HasSeq files → IsOrder binlog_name_cmp files
unfolding binlog_name_cmp
binlog_name_cmp-IsOrder files h = record {
  connex = λ x y hx hy e. ground (arith, All-In HasSeq files h hx, All-In HasSeq files h hy);
  trans = λ x y z hx hy hz e f.
      ground (arith, All-In HasSeq files h hx, All-In HasSeq files h hy, All-In HasSeq files h hz);
}
