-- ===== src/Gr/Orchestrate/Node.antt =====
-- mysql-wrapper/src/gr.rs, `orchestrate`: what the loop keeps, what one turn finds and does, and how
-- the stages of a turn follow one another.
use mysql_ha.Prelude.{ℕ, Bool, true, false, Option, List, [], ◌++◌, if◌then◌else◌, Str}
use mysql_ha.Gr.State.{Answers}
use mysql_ha.Gr.Bootstrap.{GtidCompare}
use mysql_ha.Gr.Gone.{NameVerdict, GoneTracker}
use mysql_ha.Gr.Orchestrate.Local.{Volume, Local, AskBlockSize}

-- What the loop reads once.
pub record OrchestrateConfig : Type 0 where
  pub seeds : List Str
  pub private_domain : Str
  pub pinned_name : Option Str
  pub dwell : ℕ
  pub gone_dwell : ℕ
  pub replication_password : Option Str
  pub env_root_password : Str
  pub boot_password : Str

pub record Node : Type 0 where
  pub volume : Volume
  pub group_name : Str
  pub safe_since : Option ℕ
  pub gone_tracker : GoneTracker
  pub watching : Bool

-- What one turn finds: the answers of mysqld, of the resolver and of the other wrappers, the
-- instants it reads, and which statements and writes succeed. `none` is a failed query.
pub record Pass : Type 0 where
  pub healing : Bool
  pub before : Local
  pub answers : Answers
  pub name_of : Str → NameVerdict
  pub now : ℕ
  pub membership_gtid : Option Str
  pub server_uuid : Option Str
  pub removes_auto_cnf : Bool
  pub sets_group_name : Bool
  pub persists_name : Bool
  pub persists_generation : Bool
  pub notes_membership : Bool
  pub executed_gtid_set : Option Str
  pub gtid_compare : GtidCompare
  pub membership_gtid_again : Option Str
  pub pin : Option Str
  pub ask_block_size : AskBlockSize
  pub local_block_size : Option ℕ
  pub sets_block_size : Bool
  pub starts : Bool
  pub after_start : Local
  pub safe_at : ℕ
  pub elapsed_at : ℕ
  pub fresh_name : Str
  pub bootstraps : Bool
  pub promoted : Bool
  pub sets_flag : ℕ → Bool

pub data Deed : Type 0 where
  remove_auto_cnf shutdown_server start_group_replication : Deed
  stop_group_replication bootstrap_group set_group_pre_gtid_flag : Deed
  set_group_name : Str → Deed
  clone_from : Str → Str → Deed
  set_block_size : ℕ → Deed

pub record Progress : Type 0 where
  pub node : Node
  pub deeds : List Deed
  pub goes_on : Bool

abbrev pub go : Node → Progress
go n = record { node = n; deeds = []; goes_on = true }

abbrev pub stop : Node → List Deed → Progress
stop n deeds = record { node = n; deeds = deeds; goes_on = false }

abbrev pub then_do : Progress → (Node → Progress) → Progress
then_do p next =
    if p.goes_on
    then record {
      node = (next p.node).node;
      deeds = p.deeds ++ (next p.node).deeds;
      goes_on = (next p.node).goes_on;
    }
    else p
