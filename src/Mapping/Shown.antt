-- ===== src/Mapping/Shown.antt =====
-- internal/mapping/poll_net_mapper.go: which peers an answer lists, and how they fit its filter.
use ionskale.Prelude.{
  any-keep, ℕ, List, [], ◌∷◌, Bool, true, false, not, ◌&&◌, ◌||◌, ◌≡◌, refl, sym, subst,
  Any_witness, ◌∙◌, arith, ◌==◌, ==_iff, Bool-cases, inl, inr, any, some, Any, Any-map, any_of_Any,
  is_empty, if◌then◌else◌,
}
use ionskale.Netip.{AddrText}
use ionskale.Machine.{Machine, is_quarantined}
use ionskale.Filter.Peers.{is_valid_peer}
use ionskale.Filter.Visible.{build_filter_rules-is_valid_peer}
use ionskale.Mapping.{
  MapperState, Snapshot, is_visible, candidate_peers, filter_quarantined, first_sync, synced_peers,
  create_map_response, filter_rules,
}
use ionskale.Mapping.Peers.{has_node, sync_peers-seen}

-- A peer that is not quarantined, and that the machine may reach or that may reach the machine.
abbrev pub is_shown : AddrText → Snapshot → Machine → Bool
is_shown net p peer =
    let policy = p.machine.tailnet.acl_policy in
    not (is_quarantined p.now peer (some p.machine.tailnet))
    && (is_valid_peer net policy p.machine peer || is_valid_peer net policy peer p.machine)

unless {ℓ} :
    {A : Type ℓ} (b : Bool) (xs : List A)
    → is_empty (if b then [] else xs) ≡ false
    → is_empty xs ≡ false
unless true xs h = cc
unless false xs h = h

module _ (net : AddrText) (s : MapperState) (p : Snapshot) where
  listed :
      (i : ℕ)
      → has_node (create_map_response net false s p false).0.peers i
        ≡ any (λ peer. is_visible net false p peer && peer.id == i) (candidate_peers net false p)
  unfolding create_map_response synced_peers first_sync
  listed i =
      let (_, changed, _) =
        sync_peers-seen (is_visible net false p) p.has_session i (first_sync s p)
          (candidate_peers net false p) in
      changed

  any-&& :
      (i : ℕ) (peers : List Machine)
      → any
          (λ peer.
            not (is_quarantined p.now peer (some p.machine.tailnet))
            && (is_visible net false p peer && peer.id == i))
          peers
        ≡ any (λ peer. is_shown net p peer && peer.id == i) peers
  any-&& i [] = refl
  any-&& i (peer ∷ peers) = ground (arith, any-&& i peers)

  -- The visible ones of the machines that a poll considers.
  pub visible_candidates :
      (i : ℕ)
      → any (λ peer. is_visible net false p peer && peer.id == i) (candidate_peers net false p) ≡ (
          not (is_quarantined p.now p.machine (some p.machine.tailnet))
          && any (λ peer. is_shown net p peer && peer.id == i) p.candidates)
  unfolding candidate_peers filter_quarantined
  visible_candidates i =
      elim (Bool-cases (is_quarantined p.now p.machine (some p.machine.tailnet))) [
        | inl e ↦ rw e refl
        | inr e ↦ rw e (any-keep _ _ p.candidates ∙ any-&& i p.candidates)
      ]

  -- A full answer with peers lists exactly the ids of the candidates that are not quarantined and
  -- for which IsValidPeer holds from the machine to the peer or from the peer to the machine; and
  -- none while the machine itself is quarantined.
  pub create_map_response-is_shown :
      (i : ℕ)
      → has_node (create_map_response net false s p false).0.peers i ≡ (
          not (is_quarantined p.now p.machine (some p.machine.tailnet))
          && any (λ peer. is_shown net p peer && peer.id == i) p.candidates)
  create_map_response-is_shown i = listed i ∙ visible_candidates i

  some_valid :
      is_empty (create_map_response net false s p false).0.packet_filter ≡ false
      → Any
          (λ peer. is_valid_peer net p.machine.tailnet.acl_policy peer p.machine ≡ true)
          (candidate_peers net false p)
  unfolding create_map_response filter_rules
  some_valid h =
      build_filter_rules-is_valid_peer net p.machine.tailnet.acl_policy
        (candidate_peers net false p) p.machine (unless _ _ h)

  -- Where a full answer with peers has a rule in its packet filter, one of the candidates is
  -- allowed to reach the machine and is listed in the same answer.
  pub create_map_response-is_valid_peer :
      is_empty (create_map_response net false s p false).0.packet_filter ≡ false
      → Any
          (λ peer.
            (is_valid_peer net p.machine.tailnet.acl_policy peer p.machine ≡ true)
            × (has_node (create_map_response net false s p false).0.peers peer.id ≡ true))
          (candidate_peers net false p)
  create_map_response-is_valid_peer h =
      let (x, at, valid) = Any_witness (candidate_peers net false p) (some_valid h) in
      let sees : Machine → Bool = λ y. is_visible net false p y && y.id == x.id in
      let found : any sees (candidate_peers net false p) ≡ true =
        any_of_Any sees (candidate_peers net false p) (
          Any-map (candidate_peers net false p)
            (λ y e. subst (λ z. sees z ≡ true) (sym e) (ground (arith, ==_iff x.id x.id))) at) in
      Any-map (candidate_peers net false p)
        (λ y e.
          subst
            (λ z.
              (is_valid_peer net p.machine.tailnet.acl_policy z p.machine ≡ true)
              × (has_node (create_map_response net false s p false).0.peers z.id ≡ true))
            (sym e) (valid, listed x.id ∙ found))
        at
