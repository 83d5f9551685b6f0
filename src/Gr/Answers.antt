-- ===== src/Gr/Answers.antt =====
-- mysql-wrapper/src/gr.rs: what a node reads off one round of answers: whether its own view is a
-- live group (`group_active_from`), the block size to adopt, a peer with its own server uuid, the
-- donor and the primary's transactions, and the guard of adopted data.
pub mod Adopted
pub mod BlockSize
use mysql_ha.Prelude.{
  ℕ, ◌+◌, Bool, true, false, not, ◌&&◌, ◌||◌, Option, none, some, List, [], ◌∷◌, ◌++◌, ◌==◌,
  if◌then◌else◌, is_none, first, any, Str, codes, str_eq, eq_ignore_ascii_case, is_str,
}
use mysql_ha.Gr.State.{PeerAnswer, state, not_ready, unreachable, Answers, MemberRow}

unfoldable pub group_active_from : Option Str → List MemberRow → Bool
group_active_from none members = false
group_active_from (some s) members =
    if str_eq s (codes "ONLINE")
    then true
    else if str_eq s (codes "RECOVERING")
    then any (λ m. str_eq m.state (codes "ONLINE")) members
    else false

-- `iter().find_map(f)`.
unfoldable pub find_map {ℓ ℓ'} : {A : Type ℓ} → {B : Type ℓ'} → (A → Option B) → List A → Option B
find_map f [] = none
find_map f (x ∷ xs) = let later = find_map f xs in elim (f x) [ some y ↦ some y | none ↦ later ]

abbrev pub advertised_block_size : Str × PeerAnswer → Option ℕ
advertised_block_size (host, PeerAnswer.state s) =
    if s.group_active then s.gtid_assignment_block_size else none
advertised_block_size (host, not_ready) = none
advertised_block_size (host, unreachable) = none

-- The last `match`.
abbrev pub unless_same : Option ℕ → ℕ → Option ℕ
unless_same none group = some group
unless_same (some mine) group = if mine == group then none else some group

unfoldable pub block_size_to_adopt : Option ℕ → Answers → Option ℕ
block_size_to_adopt local answers = elim (find_map advertised_block_size answers) [
  | none ↦ none
  | some group ↦ unless_same local group
]

abbrev pub uuid_is : Option Str → Str → Bool
uuid_is none my_uuid = false
uuid_is (some peer_uuid) my_uuid = eq_ignore_ascii_case peer_uuid my_uuid

abbrev pub collides : Str → Str × PeerAnswer → Option Str
collides my_uuid (host, PeerAnswer.state s) =
    if s.group_active && uuid_is s.server_uuid my_uuid then some host else none
collides my_uuid (host, not_ready) = none
collides my_uuid (host, unreachable) = none

unfoldable pub uuid_collision_peer : Str → Answers → Option Str
uuid_collision_peer my_uuid answers = find_map (collides my_uuid) answers

abbrev pub primary_gtid : Str × PeerAnswer → Option Str
primary_gtid (host, PeerAnswer.state s) =
    if s.group_active && is_str s.member_role (codes "PRIMARY") then s.gtid_executed else none
primary_gtid (host, not_ready) = none
primary_gtid (host, unreachable) = none

unfoldable pub live_primary_gtid : Answers → Option Str
live_primary_gtid answers = find_map primary_gtid answers

pub record GroupPreGtidPicture : Type 0 where
  pub carries_pre_gtid_data : Bool
  pub unknown : List Str
  pub live_peers : List Str

abbrev pub empty_picture : GroupPreGtidPicture
empty_picture = record { carries_pre_gtid_data = false; unknown = []; live_peers = [] }

-- One turn of the loop of `group_pre_gtid_picture`.
unfoldable pub picture_step : GroupPreGtidPicture → Str × PeerAnswer → GroupPreGtidPicture
picture_step picture (host, PeerAnswer.state s) =
    if s.group_active
    then record {
      carries_pre_gtid_data = picture.carries_pre_gtid_data || s.pre_gtid_data;
      unknown =
          picture.unknown
          ++ (if not s.pre_gtid_data && s.pre_gtid_data_unknown then host ∷ [] else []);
      live_peers = picture.live_peers ++ host ∷ [];
    }
    else picture
picture_step picture (host, not_ready) = picture
picture_step picture (host, unreachable) = picture

unfoldable pub picture_from : GroupPreGtidPicture → Answers → GroupPreGtidPicture
picture_from picture [] = picture
picture_from picture (x ∷ xs) = picture_from (picture_step picture x) xs

unfoldable pub group_pre_gtid_picture : Answers → GroupPreGtidPicture
group_pre_gtid_picture answers = picture_from empty_picture answers

pub data AdoptedDataVerdict : Type 0 where
  not_applicable group_carries_it : AdoptedDataVerdict
  incomplete refuse : List Str → AdoptedDataVerdict

unfoldable pub adopted_data_verdict : Bool → Bool → GroupPreGtidPicture → AdoptedDataVerdict
adopted_data_verdict i_hold_pre_gtid_data been_member picture =
    if not i_hold_pre_gtid_data || been_member
    then not_applicable
    else if picture.carries_pre_gtid_data
    then group_carries_it
    else if not (is_none (first picture.unknown))
    then incomplete picture.unknown
    else refuse picture.live_peers
