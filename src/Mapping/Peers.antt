-- ===== src/Mapping/Peers.antt =====
-- internal/mapping/poll_net_mapper.go: what the loop over the peers collects.
use ionskale.Prelude.{
  any-append, inl, inr, ℕ, List, [], ◌∷◌, Bool, not, ◌&&◌, ◌||◌, ◌≡◌, refl, arith, ◌==◌, ==_iff,
  any, keep, Bool-cases,
}
use ionskale.Machine.{Machine}
use ionskale.Mapping.{NodeView, PeerSync, has_id, sync_peer, sync_peers}

has_id-keep :
    (k i : ℕ) (ids : List ℕ)
    → has_id (keep (λ j. not (j == k)) ids) i ≡ (has_id ids i && not (i == k))
has_id-keep k i [] = refl
has_id-keep k i (j ∷ ids) = ground (arith, has_id-keep k i ids, ==_iff j k, ==_iff i k, ==_iff j i)

-- The ids of a list of nodes.
abbrev pub has_node : List NodeView → ℕ → Bool
has_node nodes i = any (λ n. n.id == i) nodes

module _ (visible : Machine → Bool) (has_session : ℕ → ℕ → Bool) (i : ℕ) where
  abbrev pub is_seen : List Machine → Bool
  is_seen peers = any (λ p. visible p && p.id == i) peers

  -- What one round of the loop does to the ids and the nodes.
  round :
      (s : PeerSync) (peer : Machine)
      → (has_id (sync_peer visible has_session s peer).synced i
          ≡ (has_id s.synced i || (visible peer && peer.id == i)))
        × (has_node (sync_peer visible has_session s peer).changed i
            ≡ (has_node s.changed i || (visible peer && peer.id == i)))
        × (has_id (sync_peer visible has_session s peer).remaining i
            ≡ (has_id s.remaining i && not (visible peer && peer.id == i)))
  unfolding sync_peer
  round s peer = elim (Bool-cases (visible peer)) [
    | inl e ↦ rw e (
      (ground arith),
      (rw (any-append (λ n. n.id == i) s.changed) (ground arith)),
      (rw (has_id-keep peer.id i s.remaining) (ground (arith, ==_iff i peer.id, ==_iff peer.id i))),
    )
    | inr e ↦ rw e ((ground arith), (ground arith), (ground arith))
  ]

  -- The loop sees the ids of the visible peers: it adds them to those that are synced and to the
  -- nodes, and takes them from those that remain.
  pub sync_peers-seen :
      (s : PeerSync) (peers : List Machine)
      → (has_id (sync_peers visible has_session s peers).synced i
          ≡ (has_id s.synced i || is_seen peers))
        × (has_node (sync_peers visible has_session s peers).changed i
            ≡ (has_node s.changed i || is_seen peers))
        × (has_id (sync_peers visible has_session s peers).remaining i
            ≡ (has_id s.remaining i && not (is_seen peers)))
  unfolding sync_peers
  sync_peers-seen s [] = ((ground arith), (ground arith), (ground arith))
  sync_peers-seen s (peer ∷ peers) =
      let (synced, changed, remaining) = round s peer in
      let (synced', changed', remaining') =
        sync_peers-seen (sync_peer visible has_session s peer) peers in
      (
        (ground (arith, synced, synced')),
        (ground (arith, changed, changed')),
        (ground (arith, remaining, remaining')),
      )
