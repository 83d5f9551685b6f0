-- ===== src/Examples/Serving.antt =====
-- mysql-wrapper/src/health_server.rs, finish_upgrade.rs and dns_probe.rs at concrete inputs.
use mysql_ha.Prelude.{
  strip_prefix, split, strip_suffix, ℕ, length, drop, ◌+◌, ◌≤◌, Str, ◌≡◌, refl, ◌≢◌, true, false,
  some, List, [], ◌∷◌, ◌++◌, codes,
}
use Prim.Native.String.{String}
use mathlib.Core.List.{Permᴰ}
use mysql_ha.Gr.State.{MemberRow}
use mysql_ha.Gr.Majority.{role_is_writable_primary}
use mysql_ha.Gr.Majority.Partition.{SplitViews}
use mysql_ha.Dns.{header, question_end, relative, encode_labels, encode_query, decode_rcode}
use mysql_ha.Dns.Wire.{read_labels, join, encode_query_reads_back}
use mysql_ha.Health.{AppState, role, role_reply, role_verdict, verdict_of, status_ok}
use mysql_ha.Health.Routing.{role_ok_partition}

abbrev member : String → String → String → MemberRow
member id state role_ = record {
  member_id = codes id;
  host = codes id;
  state = codes state;
  role = codes role_;
}

-- Two views of one group of three, in different orders: two members see each other, the third is
-- alone.
abbrev majority_view : List MemberRow
majority_view =
    member "a" "ONLINE" "PRIMARY"
    ∷ member "b" "ONLINE" "SECONDARY"
    ∷ member "c" "UNREACHABLE" "SECONDARY"
    ∷ []

abbrev minority_view : List MemberRow
minority_view =
    member "b" "UNREACHABLE" "SECONDARY"
    ∷ member "a" "UNREACHABLE" "SECONDARY"
    ∷ member "c" "ONLINE" "PRIMARY"
    ∷ []

abbrev in_order : List MemberRow
in_order =
    member "a" "UNREACHABLE" "SECONDARY"
    ∷ member "b" "UNREACHABLE" "SECONDARY"
    ∷ member "c" "ONLINE" "PRIMARY"
    ∷ []

abbrev node : String → List MemberRow → AppState
node id members = record {
  standalone = false;
  ping_succeeds = true;
  server_uuid = some (codes id);
  group_members = some members;
  membership_fenced = false;
}

views_apart : SplitViews majority_view minority_view
views_apart = (in_order, Permᴰ.swap refl refl, (refl, refl, (refl, refl, (refl, refl, tt))))

majority_serves : (role (node "a" majority_view)).0 ≡ status_ok
unfolding role role_reply verdict_of role_verdict role_is_writable_primary
majority_serves = refl

role_ok_partition_example : (role (node "c" minority_view)).0 ≢ status_ok
role_ok_partition_example =
    role_ok_partition (node "a" majority_view) (node "c" minority_view) majority_view minority_view
      refl refl refl refl views_apart majority_serves

abbrev packet : List ℕ
packet = header 7 ++ ((1 ∷ 97 ∷ 2 ∷ 98 ∷ 99 ∷ []) ++ question_end)

packet_encodes : encode_query 7 (codes "a.bc.") ≡ some packet
unfolding encode_query relative strip_suffix strip_prefix split encode_labels
packet_encodes = refl

encode_query_reads_back_example :
    (length packet ≡ length (relative (codes "a.bc.")) + 18)
    × (length (relative (codes "a.bc.")) ≤ 255)
    × (labels : List Str) × (read_labels (length packet) (drop 12 packet)
        ≡ some (labels, 0 ∷ 28 ∷ 0 ∷ 1 ∷ []))
    × (join labels ≡ relative (codes "a.bc."))
encode_query_reads_back_example = encode_query_reads_back 7 (codes "a.bc.") packet packet_encodes

-- A reply to the question that says NXDOMAIN.
nxdomain_reply : decode_rcode 7 (0 ∷ 7 ∷ 129 ∷ 131 ∷ 0 ∷ 0 ∷ 0 ∷ 0 ∷ 0 ∷ 0 ∷ 0 ∷ 0 ∷ []) ≡ some 3
unfolding decode_rcode
nxdomain_reply = refl
