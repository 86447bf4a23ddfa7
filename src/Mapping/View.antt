-- ===== src/Mapping/View.antt =====
-- internal/handlers/poll_net_map.go with internal/mapping/poll_net_mapper.go: a full answer, then
-- deltas, and what a client knows of its peers after them. The client is code of the tailcfg
-- package's users, so it is a parameter, with what tailcfg documents of Peers, PeersChanged and
-- PeersRemoved.
use ionskale.Prelude.{
  ℕ, List, [], ◌∷◌, Bool, true, false, not, ◌&&◌, ◌||◌, ◌≡◌, refl, sym, subst, ◌∙◌, arith, any,
  some, ◌==◌, is_empty, nil_of_empty, Bool-cases, inl, inr,
}
use ionskale.Netip.{AddrText}
use ionskale.Machine.{is_quarantined}
use ionskale.Mapping.{
  MapResponse, MapperState, Snapshot, has_id, is_visible, candidate_peers, first_sync, synced_peers,
  create_map_response,
}
use ionskale.Mapping.Peers.{has_node, sync_peers-seen}
use ionskale.Mapping.Shown.{is_shown, visible_candidates, create_map_response-is_shown}

-- The peers of a client, as a test on ids.
abbrev pub View : Type 0
View = ℕ → Bool

-- A client that applies answers as tailcfg documents them: Peers, if not empty, is the complete
-- list of the peers; else those of PeersRemoved are no peers any more and those of PeersChanged
-- are. Nothing is said of an id that is in both.
pub record NetmapClient : Type 0 where
  pub apply : View → MapResponse → View
  pub full :
      (v : View) (r : MapResponse) (i : ℕ)
      → is_empty r.peers ≡ false
      → apply v r i ≡ has_node r.peers i
  pub delta :
      (v : View) (r : MapResponse) (i : ℕ)
      → is_empty r.peers ≡ true
      → (has_id r.peers_removed i && has_node r.peers_changed i) ≡ false
      → apply v r i ≡ ((v i && not (has_id r.peers_removed i)) || has_node r.peers_changed i)

-- The latest poll.
abbrev pub latest : Snapshot → List Snapshot → Snapshot
latest p [] = p
latest p (q ∷ polls) = latest q polls

-- The peer with the id is one that the machine of a poll may know.
abbrev pub knows : AddrText → Snapshot → ℕ → Bool
knows net p i =
    not (is_quarantined p.now p.machine (some p.machine.tailnet))
    && any (λ peer. is_shown net p peer && peer.id == i) p.candidates

module _ (net : AddrText) (c : NetmapClient) where
  -- A mapper answers polls by deltas, which the client applies.
  unfoldable pub deltas : MapperState → View → List Snapshot → View
  unfolding create_map_response
  deltas s v [] = v
  deltas s v (p ∷ polls) =
      let (r, next) = create_map_response net false s p true in deltas next (c.apply v r) polls

  -- The first poll of a client that knows no peers is answered in full, the others by deltas.
  unfoldable pub view_after : MapperState → Snapshot → List Snapshot → View
  unfolding create_map_response deltas
  view_after s first polls =
      let (r, next) = create_map_response net false s first false in
      deltas next (c.apply (λ i. false) r) polls

  remembered :
      (s : MapperState) (p : Snapshot) (delta : Bool) (i : ℕ)
      → has_id (create_map_response net false s p delta).1.prev_synced_peer_ids i ≡ knows net p i
  unfolding create_map_response synced_peers first_sync
  remembered s p delta i =
      let (synced, _, _) =
        sync_peers-seen (is_visible net false p) p.has_session i (first_sync s p)
          (candidate_peers net false p) in
      synced ∙ visible_candidates net s p i

  after_full :
      (s : MapperState) (p : Snapshot) (i : ℕ)
      → c.apply (λ j. false) (create_map_response net false s p false).0 i ≡ knows net p i
  unfolding create_map_response
  after_full s p i =
      let r = (create_map_response net false s p false).0 in
      elim (Bool-cases (is_empty r.peers)) [
        | inr e ↦ c.full _ r i e ∙ create_map_response-is_shown net s p i
        | inl e ↦
            c.delta _ r i e refl
            ∙ subst (λ l. false ≡ has_node l i) (sym (nil_of_empty r.peers e)) refl
            ∙ create_map_response-is_shown net s p i
      ]

  after_delta :
      (s : MapperState) (v : View) (p : Snapshot) (i : ℕ)
      → v i ≡ has_id s.prev_synced_peer_ids i
      → c.apply v (create_map_response net false s p true).0 i ≡ knows net p i
  unfolding create_map_response synced_peers first_sync
  after_delta s v p i h =
      let r = (create_map_response net false s p true).0 in
      let (_, changed, remaining) =
        sync_peers-seen (is_visible net false p) p.has_session i (first_sync s p)
          (candidate_peers net false p) in
      let seen = visible_candidates net s p i in
      c.delta v r i refl (ground (arith, changed, remaining))
      ∙ ground (arith, h, seen, changed, remaining)

  after_deltas :
      (s : MapperState) (v : View) (p : Snapshot) (polls : List Snapshot)
      → ((i : ℕ) → v i ≡ has_id s.prev_synced_peer_ids i)
      → ((i : ℕ) → v i ≡ knows net p i)
      → (i : ℕ) → deltas s v polls i ≡ knows net (latest p polls) i
  unfolding deltas
  after_deltas s v p [] h known i = known i
  after_deltas s v p (q ∷ polls) h known i =
      let (r, next) = create_map_response net false s q true in
      after_deltas next (c.apply v r) q polls
        (λ j. after_delta s v q j (h j) ∙ sym (remembered s q true j))
        (λ j. after_delta s v q j (h j)) i

  -- A client that knows no peers and does not ask to omit them is answered in full and then by any
  -- number of deltas. After these it knows exactly the peers of the latest poll: the candidates
  -- that are not quarantined and that may reach the machine or be reached by it, and none where the
  -- machine is quarantined. No peer of an earlier poll is left over.
  pub view_after-is_shown :
      (s : MapperState) (first : Snapshot) (polls : List Snapshot) (i : ℕ)
      → view_after s first polls i ≡ knows net (latest first polls) i
  unfolding view_after
  view_after-is_shown s first polls i =
      let (r, next) = create_map_response net false s first false in
      after_deltas next (c.apply (λ j. false) r) first polls
        (λ j. after_full s first j ∙ sym (remembered s first false j)) (after_full s first) i
