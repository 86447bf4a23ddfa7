-- ===== src/Examples/Routing.antt =====
-- The calls that edit a machine's routes, and what its peers see after it was expired.
use ionskale.Prelude.{◌+◌, ◌≡◌, refl, [], ◌∷◌, true, false, some, arith}
use ionskale.Netip.{same_addr}
use ionskale.Machine.{Machine, is_allowed_exit_node}
use ionskale.AllowIps.{has_prefix}
use ionskale.Lock.Db.{Db, no_lock}
use ionskale.Store.{get_machine, list_machine_peers}
use ionskale.Mapping.{MapperState, Snapshot, create_map_response}
use ionskale.Mapping.Peers.{has_node}
use ionskale.Service.{answer}
use ionskale.Service.Machines.{
  enable_machine_routes, disable_machine_routes, disable_exit_node, routes_of, long_ago,
}
use ionskale.Service.Routes.{disable_exit_node-is_allowed_exit_node}
use ionskale.Service.Expiry.{expire_machine-hidden}
use ionskale.Examples.Data.{net, laptop, server, office, everything}
use ionskale.Examples.Calls.{admin_alice, rows, left_rows, expire_runs}

-- A machine that offers itself as an exit node, and is one.
abbrev gateway : Machine
gateway = record laptop {
  host_info = record laptop.host_info { routable_ips = everything ∷ [] };
  allow_ips = office ∷ everything ∷ [];
}

abbrev gateway_rows : Machine → Db
gateway_rows m = record { machines = m ∷ []; locks = λ t. no_lock; notified = [] }

abbrev told : Machine → Db
told m = record (gateway_rows m) { notified = 1 ∷ [] }

abbrev with_office : Machine
with_office = record laptop { allow_ips = office ∷ [] }

abbrev no_office : Machine
no_office = record gateway { allow_ips = everything ∷ [] }

abbrev no_exit : Machine
no_exit = record gateway { allow_ips = office ∷ [] }

enable_runs :
    enable_machine_routes net admin_alice (gateway_rows laptop) 1 ("10.0.0.0/8" ∷ []) false
    ≡ answer (routes_of net with_office, told with_office)
unfolding enable_machine_routes has_prefix same_addr
enable_runs = refl

disable_runs :
    disable_machine_routes net admin_alice (gateway_rows gateway) 1 ("10.0.0.0/8" ∷ [])
    ≡ answer (routes_of net no_office, told no_office)
unfolding disable_machine_routes has_prefix same_addr
disable_runs = refl

exit_runs :
    disable_exit_node net admin_alice (gateway_rows gateway) 1
    ≡ answer (routes_of net no_exit, told no_exit)
unfolding disable_exit_node has_prefix same_addr
exit_runs = refl

disable_exit_node-is_allowed_exit_node_example :
    (m' : Machine) × (get_machine (told no_exit) 1 ≡ some m') × (is_allowed_exit_node m' ≡ false)
unfolding get_machine has_prefix same_addr
disable_exit_node-is_allowed_exit_node_example =
    disable_exit_node-is_allowed_exit_node net admin_alice (gateway_rows gateway) 1
      (routes_of net no_exit) (told no_exit) gateway refl
      ((λ e. absurd (omega arith)), ((λ e. refl), tt)) tt exit_runs

abbrev fresh : MapperState
fresh = record { prev_synced_peer_ids = []; prev_derp_map_checksum = ""; prev_tka_checksum = "" }

-- What the server asks for after the laptop was expired.
abbrev asked : Snapshot
asked = record {
  now = long_ago + 1;
  machine = server;
  candidates = list_machine_peers left_rows 1 2;
  has_session = λ t i. true;
  lock = no_lock;
  derp_checksum = "";
  runs_ssh = false;
}

expire_machine-hidden_example :
    has_node (create_map_response net false fresh asked false).0.peers 1 ≡ false
expire_machine-hidden_example =
    expire_machine-hidden net admin_alice rows 1 left_rows fresh asked 2 1 expire_runs (omega arith)
      refl
