-- ===== src/Mapping/Routes.antt =====
-- internal/mapping/poll_net_mapper.go: primary routes, which one node of an answer has at most.
use ionskale.Prelude.{
  any, any-append, ℕ, List, [], ◌∷◌, ◌++◌, Bool, true, false, not, ◌&&◌, ◌≡◌, refl, append-nil,
  append_assoc, sym, subst, ap, ◌∙◌, arith, ==_iff, Bool-cases, inl, inr, All, All-map, eq_iff,
}
use ionskale.Netip.{same_prefix, Prefix, AddrText, same_addr}
use ionskale.Machine.{Machine, is_default_route}
use ionskale.Mapping.{
  NodeView, PeerSync, MapperState, Snapshot, is_flagged, unflagged, primary_routes, node_routes,
  to_node, sync_peer, sync_peers, first_sync, synced_peers, create_map_response, is_visible,
  candidate_peers,
}

abbrev pub no_repeat : List Prefix → Bool
no_repeat [] = true
no_repeat (r ∷ rs) = not (is_flagged rs r) && no_repeat rs

-- The routes of a list of nodes after those of a first one, the latest first.
abbrev pub given_routes : List Prefix → List NodeView → List Prefix
given_routes start [] = start
given_routes start (n ∷ ns) = given_routes (n.routes ++ start) ns

given_routes-append :
    (start : List Prefix) (ns : List NodeView) (n : NodeView)
    → given_routes start (ns ++ n ∷ []) ≡ n.routes ++ given_routes start ns
given_routes-append start [] n = refl
given_routes-append start (m ∷ ns) n = given_routes-append (m.routes ++ start) ns n

same_prefix_comm : (p q : Prefix) → same_prefix p q ≡ same_prefix q p
unfolding same_addr
same_prefix_comm p q = ground (
  arith,
  eq_iff p.addr.zone q.addr.zone,
  eq_iff q.addr.zone p.addr.zone,
  ==_iff p.bits q.bits,
  ==_iff q.bits p.bits,
)

-- None of the routes is flagged.
abbrev Fresh : List Prefix → List Prefix → Type 0
Fresh flagged rs = All (λ r. is_flagged flagged r ≡ false) rs

not_again :
    (r : Prefix) (rs flagged : List Prefix) → Fresh (r ∷ flagged) rs → is_flagged rs r ≡ false
not_again r [] flagged h = refl
not_again r (q ∷ rs) flagged (e, h) = ground (arith, same_prefix_comm q r, not_again r rs flagged h)

weaken : (r : Prefix) (flagged rs : List Prefix) → Fresh (r ∷ flagged) rs → Fresh flagged rs
weaken r flagged rs h = All-map rs (λ q e. ground arith) h

no_repeat-append :
    (rs flagged : List Prefix)
    → no_repeat rs ≡ true
    → Fresh flagged rs
    → no_repeat flagged ≡ true
    → no_repeat (rs ++ flagged) ≡ true
no_repeat-append [] flagged n h f = f
no_repeat-append (r ∷ rs) flagged n (e, h) f =
    ground (arith, any-append (λ q. same_prefix q r) rs flagged, no_repeat-append rs flagged)

unflagged-Fresh :
    (flagged rs : List Prefix)
    → Fresh flagged (unflagged flagged rs) × (no_repeat (unflagged flagged rs) ≡ true)
unfolding unflagged
unflagged-Fresh flagged [] = (tt, refl)
unflagged-Fresh flagged (r ∷ rs) =
    elim (Bool-cases (not (is_default_route r) && not (is_flagged flagged r))) [
      | inl e ↦
          let (fresh, once) = unflagged-Fresh (r ∷ flagged) rs in
          rw e (
            ((ground arith), (weaken r flagged _ fresh)),
            (ground (arith, not_again r (unflagged (r ∷ flagged) rs) flagged fresh)),
          )
      | inr e ↦ rw e (unflagged-Fresh flagged rs)
    ]

Fresh-swap : (rs qs : List Prefix) → Fresh rs qs → Fresh qs rs
Fresh-swap [] qs h = tt
Fresh-swap (r ∷ rs) qs h = (not_again r qs rs h, Fresh-swap rs qs (weaken r rs qs h))

Fresh-left : (rs qs xs : List Prefix) → Fresh (rs ++ qs) xs → Fresh rs xs
Fresh-left rs qs xs h =
    All-map xs (λ x e. ground (arith, any-append (λ f. same_prefix f x) rs qs)) h

Fresh-right : (rs qs xs : List Prefix) → Fresh (rs ++ qs) xs → Fresh qs xs
Fresh-right rs qs xs h =
    All-map xs (λ x e. ground (arith, any-append (λ f. same_prefix f x) rs qs)) h

Fresh-both : (rs qs xs : List Prefix) → Fresh rs xs → Fresh qs xs → Fresh (rs ++ qs) xs
Fresh-both rs qs [] h k = tt
Fresh-both rs qs (x ∷ xs) (e, h) (f, k) =
    (ground (arith, any-append (λ g. same_prefix g x) rs qs), Fresh-both rs qs xs h k)

primary_routes-no_repeat :
    (flagged : List Prefix) (m : Machine)
    → no_repeat flagged ≡ true
    → no_repeat (primary_routes flagged m ++ flagged) ≡ true
unfolding primary_routes
primary_routes-no_repeat flagged m h =
    let (fresh, once) = unflagged-Fresh flagged m.allow_ips in
    let allowed = unflagged flagged m.allow_ips in
    let (fresh', once') = unflagged-Fresh (allowed ++ flagged) m.auto_allow_ips in
    let more = unflagged (allowed ++ flagged) m.auto_allow_ips in
    let apart = Fresh-swap allowed more (Fresh-left allowed flagged more fresh') in
    let rest = no_repeat-append more flagged once' (Fresh-right allowed flagged more fresh') h in
    rw (append_assoc allowed more flagged) (
      no_repeat-append allowed (more ++ flagged) once (Fresh-both more flagged allowed apart fresh)
        rest)

node_routes-no_repeat :
    (connected : Bool) (flagged : List Prefix) (m : Machine)
    → no_repeat flagged ≡ true
    → no_repeat (node_routes connected flagged m ++ flagged) ≡ true
unfolding node_routes
node_routes-no_repeat true flagged m h = primary_routes-no_repeat flagged m h
node_routes-no_repeat false flagged m h = h

unflagged-no_default :
    (flagged rs : List Prefix) → any is_default_route (unflagged flagged rs) ≡ false
unfolding unflagged
unflagged-no_default flagged [] = refl
unflagged-no_default flagged (r ∷ rs) =
    ground (arith, unflagged-no_default flagged rs, unflagged-no_default (r ∷ flagged) rs)

node_routes-no_default :
    (connected : Bool) (flagged : List Prefix) (m : Machine)
    → any is_default_route (node_routes connected flagged m) ≡ false
unfolding node_routes primary_routes
node_routes-no_default true flagged m =
    let allowed = unflagged flagged m.allow_ips in
    rw
      (
        any-append is_default_route allowed (unflagged (allowed ++ flagged) m.auto_allow_ips),
        unflagged-no_default flagged m.allow_ips,
        unflagged-no_default (allowed ++ flagged) m.auto_allow_ips,
      )
      refl
node_routes-no_default false flagged m = refl

module _ (visible : Machine → Bool) (has_session : ℕ → ℕ → Bool) (start : List Prefix) where
  -- The flagged routes are those of the nodes, none of them twice, and none a default route.
  abbrev Kept : PeerSync → Type 0
  Kept s =
      (s.flagged ≡ given_routes start s.changed)
      × (no_repeat s.flagged ≡ true)
      × (any is_default_route s.flagged ≡ false)

  sync_peer-Kept :
      (s : PeerSync) (peer : Machine) → Kept s → Kept (sync_peer visible has_session s peer)
  unfolding sync_peer
  sync_peer-Kept s peer (same, once, proper) = elim (Bool-cases (visible peer)) [
    | inl e ↦
        let connected = has_session peer.tailnet_id peer.id in
        rw e (
          (ap (λ l. node_routes connected s.flagged peer ++ l) same
              ∙ sym (given_routes-append start s.changed (to_node connected s.flagged peer))),
          (node_routes-no_repeat connected s.flagged peer once),
          (any-append is_default_route (node_routes connected s.flagged peer) s.flagged
              ∙ rw (node_routes-no_default connected s.flagged peer, proper) refl),
        )
    | inr e ↦ rw e (same, once, proper)
  ]

  sync_peers-Kept :
      (s : PeerSync) (peers : List Machine) → Kept s → Kept (sync_peers visible has_session s peers)
  unfolding sync_peers
  sync_peers-Kept s [] h = h
  sync_peers-Kept s (peer ∷ peers) h =
      sync_peers-Kept (sync_peer visible has_session s peer) peers (sync_peer-Kept s peer h)

-- In a full answer with peers no primary route is given twice: neither to two nodes, the machine's
-- own included, nor to one node by both of its lists of routes. Primary routes are the allowed
-- routes that a node gets besides its addresses; a default route is none of them, so the 0.0.0.0/0
-- and ::/0 of the exit nodes, which several nodes may have, are not among them.
pub create_map_response-no_repeat :
    (net : AddrText) (s : MapperState) (p : Snapshot)
    → (no_repeat (
          given_routes
            (create_map_response net false s p false).0.node.routes
            (create_map_response net false s p false).0.peers)
        ≡ true)
      × (any is_default_route (
            given_routes
              (create_map_response net false s p false).0.node.routes
              (create_map_response net false s p false).0.peers)
          ≡ false)
unfolding create_map_response synced_peers first_sync
create_map_response-no_repeat net s p =
    let own = node_routes true [] p.machine in
    let first_once : no_repeat own ≡ true =
      subst (λ l. no_repeat l ≡ true) (append-nil own)
        (node_routes-no_repeat true [] p.machine refl) in
    let (same, once, proper) =
      sync_peers-Kept (is_visible net false p) p.has_session own (first_sync s p)
        (candidate_peers net false p)
        (refl, first_once, node_routes-no_default true [] p.machine) in
    subst (λ l. (no_repeat l ≡ true) × (any is_default_route l ≡ false)) same (once, proper)
