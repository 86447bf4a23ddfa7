-- ===== src/Mapping.antt =====
-- internal/mapping/poll_net_mapper.go: the answers to one machine that polls for the network map.
-- Of a node its id, where its traffic goes and whether it is connected are kept. User profiles, DNS
-- and DERP content are left out; the queries of the database are read off the snapshot that a poll
-- comes with, and the stored keys are well formed.
pub mod Routes
pub mod Shown
pub mod Peers
pub mod View
use Prim.Native.String.{◌++◌ as append_text}
use ionskale.Prelude.{
  ℕ, String, List, [], ◌∷◌, ◌++◌, Bool, true, false, not, ◌&&◌, ◌||◌, Option, none, some, ◌==◌,
  str_eq, keep, any, is_empty, if◌then◌else◌,
}
use ionskale.Netip.{same_prefix, Prefix, AddrText, same_addr}
use ionskale.Policy.{FilterRule}
use ionskale.Machine.{Machine, Tailnet, is_quarantined, is_default_route, is_allowed_exit_node}
use ionskale.Filter.Rules.{build_filter_rules}
use ionskale.Filter.Peers.{is_valid_peer}
use ionskale.Ssh.{SshRule, build_ssh_policy}
use ionskale.Lock.Db.{LockState}

-- A node's `AllowedIPs` are the three lists in their order.
pub record NodeView : Type 0 where
  pub id : ℕ
  pub addresses : List Prefix
  pub routes : List Prefix
  pub exit_routes : List Prefix
  pub is_connected : Bool

-- tailcfg.TKAInfo.
pub record TkaInfo : Type 0 where
  pub head : String
  pub disabled : Bool

pub record MapResponse : Type 0 where
  pub node : NodeView
  pub packet_filter : List FilterRule
  pub ssh_policy : Option (List SshRule)
  pub peers : List NodeView
  pub peers_changed : List NodeView
  pub peers_removed : List ℕ
  pub sends_derp_map : Bool
  pub tka_info : Option TkaInfo

-- What a PollNetMapper remembers between two polls.
pub record MapperState : Type 0 where
  pub prev_synced_peer_ids : List ℕ
  pub prev_derp_map_checksum : String
  pub prev_tka_checksum : String

-- What a poll reads: the time, the machine, the other machines of its tailnet, the sessions, the
-- lock, the checksum of the DERP map, and whether the machine runs the SSH server.
pub record Snapshot : Type 0 where
  pub now : ℕ
  pub machine : Machine
  pub candidates : List Machine
  pub has_session : ℕ → ℕ → Bool
  pub lock : LockState
  pub derp_checksum : String
  pub runs_ssh : Bool

abbrev pub has_id : List ℕ → ℕ → Bool
has_id ids i = any (λ j. j == i) ids

unfoldable pub filter_quarantined : ℕ → List Machine → Tailnet → List Machine
unfolding is_quarantined
filter_quarantined now machines tailnet =
    keep (λ m. not (is_quarantined now m (some tailnet))) machines

abbrev pub is_flagged : List Prefix → Prefix → Bool
is_flagged flagged r = any (λ f. same_prefix f r) flagged

-- One loop of `filter`, over the routes: those that it returns. They are also the ones that it flags.
unfoldable pub unflagged : List Prefix → List Prefix → List Prefix
unfolding same_addr
unflagged flagged [] = []
unflagged flagged (r ∷ rs) =
    let taken = unflagged flagged rs in
    let more = unflagged (r ∷ flagged) rs in
    if not (is_default_route r) && not (is_flagged flagged r) then r ∷ more else taken

-- `primaryRoutesCollector.filter`: the routes of a machine that no node had before.
unfoldable pub primary_routes : List Prefix → Machine → List Prefix
unfolding unflagged
primary_routes flagged m =
    let allowed = unflagged flagged m.allow_ips in
    allowed ++ unflagged (allowed ++ flagged) m.auto_allow_ips

-- `0.0.0.0/0` and `::/0`.
abbrev default_routes : List Prefix
default_routes =
    record { addr = record { is4 = true; value = 0; zone = "" }; bits = 0 }
    ∷ record { addr = record { is4 = false; value = 0; zone = "" }; bits = 0 }
    ∷ []

-- The routes that a node is given: none while it is not connected.
unfoldable pub node_routes : Bool → List Prefix → Machine → List Prefix
unfolding primary_routes
node_routes connected flagged m = if connected then primary_routes flagged m else []

-- The part of `ToNode` (mapping.go) that says where traffic for a machine goes.
unfoldable pub to_node : Bool → List Prefix → Machine → NodeView
unfolding node_routes is_allowed_exit_node
to_node connected flagged m = record {
  id = m.id;
  addresses = record { addr = m.ipv4; bits = 32 } ∷ record { addr = m.ipv6; bits = 128 } ∷ [];
  routes = node_routes connected flagged m;
  exit_routes = if is_allowed_exit_node m then default_routes else [];
  is_connected = connected;
}

-- The variables of the loop over the peers.
pub record PeerSync : Type 0 where
  pub flagged : List Prefix
  pub changed : List NodeView
  pub synced : List ℕ
  pub remaining : List ℕ

unfoldable pub sync_peer : (Machine → Bool) → (ℕ → ℕ → Bool) → PeerSync → Machine → PeerSync
unfolding node_routes to_node
sync_peer visible has_session s peer =
    let connected = has_session peer.tailnet_id peer.id in
    if visible peer
    then record {
      flagged = node_routes connected s.flagged peer ++ s.flagged;
      changed = s.changed ++ to_node connected s.flagged peer ∷ [];
      synced = peer.id ∷ s.synced;
      remaining = keep (λ i. not (i == peer.id)) s.remaining;
    }
    else s

unfoldable pub sync_peers : (Machine → Bool) → (ℕ → ℕ → Bool) → PeerSync → List Machine → PeerSync
unfolding sync_peer
sync_peers visible has_session s [] = s
sync_peers visible has_session s (peer ∷ peers) =
    sync_peers visible has_session (sync_peer visible has_session s peer) peers

abbrev pub tka_info_of : LockState → Option TkaInfo
tka_info_of lock =
    if lock.enabled
    then some (record { head = lock.head; disabled = false })
    else if lock.disabled
    then some (record { head = ""; disabled = true })
    else none

abbrev pub tka_checksum_of : LockState → String
tka_checksum_of lock =
    if lock.enabled
    then append_text "enabled:" lock.head
    else if lock.disabled
    then "disabled"
    else ""

unfoldable pub first_sync : MapperState → Snapshot → PeerSync
unfolding node_routes
first_sync s p = record {
  flagged = node_routes true [] p.machine;
  changed = [];
  synced = [];
  remaining = s.prev_synced_peer_ids;
}

module _ (net : AddrText) (omit_peers : Bool) where
  -- The machines that a poll considers: none for a quarantined machine.
  unfoldable pub candidate_peers : Snapshot → List Machine
  unfolding filter_quarantined is_quarantined
  candidate_peers p =
      if is_quarantined p.now p.machine (some p.machine.tailnet)
      then []
      else filter_quarantined p.now p.candidates p.machine.tailnet

  abbrev pub is_visible : Snapshot → Machine → Bool
  is_visible p peer =
      let policy = p.machine.tailnet.acl_policy in
      is_valid_peer net policy p.machine peer || is_valid_peer net policy peer p.machine

  -- The loop over the candidates, from the state that the machine's own node leaves.
  unfoldable pub synced_peers : MapperState → Snapshot → PeerSync
  unfolding candidate_peers sync_peers first_sync
  synced_peers s p =
      let start = first_sync s p in
      if omit_peers
      then start
      else sync_peers (is_visible p) p.has_session start (candidate_peers p)

  unfoldable pub filter_rules : Snapshot → List FilterRule
  unfolding candidate_peers build_filter_rules
  filter_rules p =
      if omit_peers || is_quarantined p.now p.machine (some p.machine.tailnet)
      then []
      else build_filter_rules net p.machine.tailnet.acl_policy (candidate_peers p) p.machine

  unfoldable pub ssh_policy : Snapshot → Option (List SshRule)
  unfolding candidate_peers build_ssh_policy
  ssh_policy p =
      if omit_peers || is_quarantined p.now p.machine (some p.machine.tailnet)
      then none
      else if p.machine.tailnet.ssh_enabled && p.runs_ssh
      then some (build_ssh_policy net p.machine.tailnet.acl_policy (candidate_peers p) p.machine)
      else none

  unfoldable pub create_map_response : MapperState → Snapshot → Bool → MapResponse × MapperState
  unfolding synced_peers filter_rules ssh_policy to_node
  create_map_response s p delta =
      let sync = synced_peers s p in
      let checksum = tka_checksum_of p.lock in
      (
        record {
          node = to_node true [] p.machine;
          packet_filter = filter_rules p;
          ssh_policy = ssh_policy p;
          peers = if delta || omit_peers then [] else sync.changed;
          peers_changed = if delta && not omit_peers then sync.changed else [];
          peers_removed = if delta && not omit_peers then sync.remaining else [];
          sends_derp_map = not delta || not (str_eq s.prev_derp_map_checksum p.derp_checksum);
          tka_info =
              if not delta || not (str_eq s.prev_tka_checksum checksum)
              then tka_info_of p.lock
              else none;
        },
        record {
          prev_synced_peer_ids = sync.synced;
          prev_derp_map_checksum = p.derp_checksum;
          prev_tka_checksum = checksum;
        },
      )
