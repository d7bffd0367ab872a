-- ===== src/Monitor/Departures.antt =====
-- The end of a departure: depart_done_handler of src/monitor/depart_done_handler.cpp.
pub mod Counted
use anna.Prelude.{
  ℕ, zero, suc, ◌+◌, ◌-◌, ◌%◌, ◌^◌, ◌==◌, list_eq, nat_eq, nat_beq, Bool, true, false, Option, none,
  some, List, [], ◌∷◌, ◌++◌, if◌then◌else◌, ℤ, pos, negsuc,
}
use anna.Containers.HashMap
use anna.Containers.HashMap.{HashMap}
use anna.Text.{Text, codes, split, stoi_int}
use anna.Messages.{send, text}
use anna.Run.{Run, ok, fault, out_of_range, unparsed, or_fault, ◌>>=◌}
use anna.Monitor.{
  Monitor, MonitorConfig, NodeType, memory_node, ebs_node, node_type_name, with_removing,
  restart_grace, management_address,
}

-- `tier_id == 1`, for the number that `stoi` returned
abbrev pub departed_type : ℤ → NodeType
departed_type (pos n) = if nat_beq n 1 then memory_node else ebs_node
departed_type (negsuc n) = ebs_node

module _ {D : Type 0} (config : MonitorConfig) where
  -- The last thread of the node is done.
  unfoldable pub node_done : Text → NodeType → Monitor D → Monitor D
  node_done private_ip tier m =
      let m' = with_removing config tier false m in
      let told = record m' {
        net =
            send (management_address config.management_ip)
              (text (codes "remove:" ++ (private_ip ++ codes ":" ++ node_type_name tier))) m'.net;
      } in
      let m'' = restart_grace config told in
      record m'' { departing_node_map = HashMap.erase private_ip m''.departing_node_map }

  -- `departing_node_map[…] -= 1`, on 32 bits
  unfoldable pub count_down : Text → NodeType → Option ℕ → Monitor D → Monitor D
  count_down private_ip tier none m = m
  count_down private_ip tier (some n) m =
      let left = (n + (2 ^ 32 - 1)) % 2 ^ 32 in
      let m' = record m {
        departing_node_map = HashMap.assign private_ip left m.departing_node_map;
      } in
      if nat_beq left 0 then node_done private_ip tier m' else m'

  unfoldable pub take_tokens : List Text → Monitor D → Run (Monitor D)
  take_tokens (public_ip ∷ private_ip ∷ tier ∷ rest) m = do
    tier_id ← or_fault unparsed (stoi_int tier)
    ok (
        count_down private_ip (departed_type tier_id) (HashMap.find private_ip m.departing_node_map)
          m)
  take_tokens tokens m = fault out_of_range

  unfoldable pub depart_done_handler : Text → Monitor D → Run (Monitor D)
  depart_done_handler serialized m = take_tokens (split serialized b'_') m
