-- ===== src/Gr/State.antt =====
-- mysql-wrapper/src/peers.rs, and the rows of mysql-wrapper/src/sql.rs: what the nodes tell one
-- another, and the group members that a node sees. Answers come paired with the host asked.
use mysql_ha.Prelude.{
  ℕ, suc, ◌-◌, ◌^◌, Bool, false, Option, none, some, List, [], ◌∷◌, if◌then◌else◌, unwrap_or, Str,
  eq_ignore_ascii_case,
}

pub record GrState : Type 0 where
  pub group_active : Bool
  pub member_state : Option Str
  pub member_role : Option Str
  pub gtid_executed : Option Str
  pub members_total : ℕ
  pub members_reachable : ℕ
  pub pre_gtid_data : Bool
  pub pre_gtid_data_unknown : Bool
  pub server_uuid : Option Str
  pub group_name : Option Str
  pub gtid_assignment_block_size : Option ℕ
  pub waiver_generation : ℕ

pub data PeerAnswer : Type 0 where
  state : GrState → PeerAnswer
  not_ready unreachable : PeerAnswer

abbrev pub Answers : Type 0
Answers = List (Str × PeerAnswer)

pub record MemberRow : Type 0 where
  pub member_id : Str
  pub host : Str
  pub state : Str
  pub role : Str

-- `matches!(a, PeerAnswer::State(s) if s.group_active)`.
abbrev pub is_live : PeerAnswer → Bool
is_live (PeerAnswer.state s) = s.group_active
is_live not_ready = false
is_live unreachable = false

-- The declared position of a host in the seed order (`Config::seed_rank`).
abbrev pub seed_rank : List Str → Str → Option ℕ
seed_rank [] host = none
seed_rank (h ∷ hs) host =
    let later = seed_rank hs host in
    if eq_ignore_ascii_case h host
    then some 0
    else elim later [ none ↦ none | some n ↦ some (suc n) ]

abbrev pub usize_max : ℕ
usize_max = 2 ^ 64 - 1

-- `.unwrap_or(usize::MAX)`.
unfoldable pub rank_of : List Str → Str → ℕ
rank_of seeds host = unwrap_or (seed_rank seeds host) usize_max
