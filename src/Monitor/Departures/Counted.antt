-- ===== src/Monitor/Departures/Counted.antt =====
-- A departure is over when as many threads as were waited for are done; and the message that a server
-- sends for it is not one that the monitor can read.
use anna.Prelude.{ℕ, zero, suc, ◌≡◌, refl, list_eq, nat_eq, Bool, false, none, [], ◌∷◌, ◌++◌}
use anna.Containers.HashMap
use anna.Containers.HashMap.{HashMap}
use anna.Text.{Text, codes, split, stoi, stoi_int}
use anna.Text.Split.{Without, split-end}
use anna.Messages.{text}
use anna.Metadata.{Tier, tier_unspecified, memory, disk, routing}
use anna.Metadata.Names.{tier_name}
use anna.Run.{Run, ok, fault, unparsed, ◌>>=◌}
use anna.Kvs.{Config}
use anna.Kvs.Membership.{departed_message}
use anna.Monitor.{
  Monitor, MonitorConfig, NodeType, memory_node, ebs_node, node_type_name, with_removing,
  management_address,
}
use anna.Monitor.Departures.{take_tokens, depart_done_handler}

abbrev pub removing : {D : Type 0} → NodeType → Monitor D → Bool
removing memory_node m = m.removing_memory_node
removing ebs_node m = m.removing_ebs_node

module _ {D : Type 0} (config : MonitorConfig) where
  -- The same message, as often as threads of one node send it.
  unfoldable pub deliver : ℕ → Text → Monitor D → Run (Monitor D)
  deliver zero serialized m = ok m
  deliver (suc n) serialized m = depart_done_handler config serialized m >>= deliver n serialized

  -- The node is no longer waited for, another may be removed, and the management node was told.
  pub record IsDeparted (private_ip : Text) (tier : NodeType) (m m' : Monitor D) : Type 0 where
    pub gone : HashMap.find private_ip m'.departing_node_map ≡ none
    pub free : removing tier m' ≡ false
    pub told :
        m'.net.sent
        ≡ m.net.sent
          ++ (
            management_address config.management_ip,
            text (codes "remove:" ++ (private_ip ++ codes ":" ++ node_type_name tier)),
          )
            ∷ []

  removing-with :
      (tier : NodeType) (m : Monitor D) → removing tier (with_removing config tier false m) ≡ false
  removing-with memory_node m = refl
  removing-with ebs_node m = refl

  no_number :
      (public_ip private_ip : Text) (tier : Tier) (m : Monitor D)
      → take_tokens config (public_ip ∷ private_ip ∷ split (tier_name tier) b'_') m ≡ fault unparsed
  unfolding take_tokens split stoi_int stoi
  no_number public_ip private_ip tier_unspecified m = refl
  no_number public_ip private_ip memory m = refl
  no_number public_ip private_ip disk m = refl
  no_number public_ip private_ip routing m = refl

  -- The message that self_depart_handler of a server sends when it is done cannot be handled by
  -- depart_done_handler of the monitor: the `stoi` of its third part, the name of the tier, throws;
  -- for every server whose addresses are without an underscore, and every state of the monitor.
  pub depart_done-unparsed :
      (server : Config) (m : Monitor D)
      → Without b'_' server.wt.public_ip
      → Without b'_' server.wt.private_ip
      → depart_done_handler config (departed_message server) m ≡ fault unparsed
  unfolding depart_done_handler
  depart_done-unparsed server m h k =
      rw
        (
          split-end server.wt.public_ip (server.wt.private_ip ++ b'_' ∷ tier_name server.self_tier)
              b'_' h,
          split-end server.wt.private_ip (tier_name server.self_tier) b'_' k,
        )
        (no_number server.wt.public_ip server.wt.private_ip server.self_tier m)
