-- ===== src/Examples/Polls.antt =====
-- The laptop and the server of the small tailnet poll for the network map.
use ionskale.Prelude.{
  is_empty, ◌||◌, if◌then◌else◌, ℕ, List, [], ◌∷◌, true, false, not, ◌&&◌, ◌≡◌, refl, ◌==◌, Any,
  any, some,
}
use ionskale.Machine.{Machine, is_quarantined, is_default_route}
use ionskale.Filter.Peers.{is_valid_peer}
use ionskale.Lock.Db.{no_lock}
use ionskale.Mapping.{MapperState, Snapshot, has_id, candidate_peers, create_map_response}
use ionskale.Mapping.Peers.{has_node}
use ionskale.Mapping.Routes.{no_repeat, given_routes, create_map_response-no_repeat}
use ionskale.Mapping.Shown.{
  is_shown, create_map_response-is_shown, create_map_response-is_valid_peer,
}
use ionskale.Mapping.View.{NetmapClient, view_after, knows, view_after-is_shown}
use ionskale.Examples.Data.{net, policy, laptop, phone, server, desk, lab, office}

abbrev fresh : MapperState
fresh = record { prev_synced_peer_ids = []; prev_derp_map_checksum = ""; prev_tka_checksum = "" }

-- At time `now` the machine is told of the others; the phone's key has expired.
abbrev poll : ℕ → Machine → List Machine → Snapshot
poll now m others = record {
  now = now;
  machine = m;
  candidates = others;
  has_session = λ t id. true;
  lock = no_lock;
  derp_checksum = "d";
  runs_ssh = true;
}

abbrev old_phone : Machine
old_phone = record phone { expires_at = 20 }

abbrev router : Machine
router = record server { allow_ips = lab ∷ office ∷ lab ∷ []; auto_allow_ips = office ∷ [] }

abbrev second_router : Machine
second_router = record phone { auto_allow_ips = lab ∷ [] }

abbrev first_poll : Snapshot
first_poll = poll 10 laptop (router ∷ second_router ∷ [])

-- A client that applies the removals before the changes.
abbrev client : NetmapClient
client = record {
  apply = λ v r i.
      if is_empty r.peers
      then (v i && not (has_id r.peers_removed i)) || has_node r.peers_changed i
      else has_node r.peers i;
  full = λ v r i e. rw e refl;
  delta = λ v r i e apart. rw e refl;
}

-- The phone's key expires between the two polls.
view_after-is_shown_example :
    view_after net client fresh
      (poll 10 laptop (server ∷ old_phone ∷ []))
      (poll 30 laptop (server ∷ old_phone ∷ []) ∷ [])
      3
    ≡ knows net (poll 30 laptop (server ∷ old_phone ∷ [])) 3
view_after-is_shown_example =
    view_after-is_shown net client fresh (poll 10 laptop (server ∷ old_phone ∷ []))
      (poll 30 laptop (server ∷ old_phone ∷ []) ∷ []) 3

create_map_response-is_shown_example :
    has_node (create_map_response net false fresh first_poll false).0.peers 3 ≡ (
      not (is_quarantined 10 laptop (some laptop.tailnet))
      && any (λ peer. is_shown net first_poll peer && peer.id == 3) first_poll.candidates)
create_map_response-is_shown_example = create_map_response-is_shown net fresh first_poll 3

create_map_response-no_repeat_example :
    (no_repeat (
        given_routes
          (create_map_response net false fresh first_poll false).0.node.routes
          (create_map_response net false fresh first_poll false).0.peers)
      ≡ true)
    × (any is_default_route (
          given_routes
            (create_map_response net false fresh first_poll false).0.node.routes
            (create_map_response net false fresh first_poll false).0.peers)
        ≡ false)
create_map_response-no_repeat_example = create_map_response-no_repeat net fresh first_poll

create_map_response-is_valid_peer_example :
    Any
      (λ peer.
        (is_valid_peer net policy peer server ≡ true)
        × (has_node
              (create_map_response net false fresh
                (poll 10 server (desk ∷ laptop ∷ []))
                false).0.peers
              peer.id
            ≡ true))
      (candidate_peers net false (poll 10 server (desk ∷ laptop ∷ [])))
unfolding create_map_response
create_map_response-is_valid_peer_example =
    create_map_response-is_valid_peer net fresh (poll 10 server (desk ∷ laptop ∷ [])) refl
