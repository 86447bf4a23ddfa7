-- ===== src/Pollers/Safety.antt =====
-- internal/core/session_manager.go: what holds in every state of the session manager.
use ionskale.Prelude.{
  ◌≢◌, ℕ, List, [], ◌∷◌, true, false, not, ◌≡◌, refl, arith, ◌==◌, ==_iff, Option, none, some, any,
  all, Bool-cases, Option-cases, inl, inr,
}
use ionskale.Pollers.{
  Manager, Timer, after_register, after_deregister, is_in, find_target, without, is_newer, is_fresh,
  close_channel, send_ping, ping_targets, notify_all, has_session, register, deregister, fire,
  fire_timer, Step, registers, deregisters, notifies, fires, Reachable, starts, continues,
}
use ionskale.Pollers.Targets.{
  are_open, are_distinct, has_target, without-are_open, without-any, without-are_distinct,
  without-has_target, find_target-any, find_target-open, shut-are_open, without-elsewhere,
}

record IsSound (s : Manager) : Type 0 where
  opened : are_open s.closed s.targets ≡ true
  distinct : are_distinct s.targets ≡ true
  tracked : (m : ℕ) → s.sessions m ≡ has_target s.targets m
  calm : s.panicked ≡ false

send_ping-IsSound :
    (capacity ch : ℕ) (s : Manager)
    → is_in s.closed ch ≡ false
    → IsSound s
    → IsSound (send_ping capacity ch s)
unfolding send_ping
send_ping-IsSound capacity ch s e h = record {
  opened = h.opened;
  distinct = h.distinct;
  tracked = h.tracked;
  calm = rw e (ground (arith, h.calm));
}

send_ping-are_open :
    (capacity ch : ℕ) (s : Manager) (ts : List (ℕ × ℕ))
    → are_open s.closed ts ≡ true
    → are_open (send_ping capacity ch s).closed ts ≡ true
unfolding send_ping
send_ping-are_open capacity ch s ts o = o

ping_targets-IsSound :
    (capacity : ℕ) (ignored : List ℕ) (ts : List (ℕ × ℕ)) (s : Manager)
    → are_open s.closed ts ≡ true
    → IsSound s
    → IsSound (ping_targets capacity ignored ts s)
unfolding ping_targets
ping_targets-IsSound capacity ignored [] s o h = h
ping_targets-IsSound capacity ignored ((m, ch) ∷ ts) s o h = elim (Bool-cases (is_in ignored m)) [
  | inl e ↦ rw e (ping_targets-IsSound capacity ignored ts s (ground arith) h)
  | inr e ↦ rw e (
      ping_targets-IsSound capacity ignored ts (send_ping capacity ch s)
        (send_ping-are_open capacity ch s ts (ground arith))
        (send_ping-IsSound capacity ch s (ground arith) h))
]

notify_all-IsSound :
    (capacity : ℕ) (ignored : List ℕ) (s : Manager)
    → IsSound s
    → IsSound (notify_all capacity ignored s)
unfolding notify_all
notify_all-IsSound capacity ignored s h =
    ping_targets-IsSound capacity ignored s.targets s h.opened h

channel_differs :
    (c d : ℕ) (ts : List (ℕ × ℕ))
    → any (λ u. u.1 == c) ts ≡ true
    → any (λ u. u.1 == d) ts ≡ false
    → (c == d) ≡ false
channel_differs c d ts h k = elim (Bool-cases (c == d)) [
  | inl e ↦ cc (rw ((==_iff c d).0 e) at h)
  | inr e ↦ e
]

register-IsSound :
    (m ch : ℕ) (s : Manager) → is_fresh s ch ≡ true → IsSound s → IsSound (register m ch s)
unfolding register close_channel
register-IsSound m ch s fresh h = elim (Option-cases (find_target s.targets m)) [
  | inl e ↦ rw e (record {
    opened = ground (arith, without-are_open s.closed m s.targets h.opened);
    distinct =
        ground (arith, without-any m ch s.targets, without-are_distinct m s.targets h.distinct);
    tracked = λ j. ground (arith, h.tracked j, without-has_target m j s.targets);
    calm = h.calm;
  })
  | inr (curr, e) ↦
      let shut =
        shut-are_open s.closed curr (without m s.targets)
          (without-elsewhere m curr s.targets e h.distinct)
          (without-are_open s.closed m s.targets h.opened) in
      let differs =
        channel_differs curr ch s.targets (find_target-any m curr s.targets e) (ground arith) in
      rw e (record {
        opened = ground (arith, shut, differs);
        distinct =
            ground (arith, without-any m ch s.targets, without-are_distinct m s.targets h.distinct);
        tracked = λ j. ground (arith, h.tracked j, without-has_target m j s.targets);
        calm = ground (arith, h.calm, find_target-open s.closed m curr s.targets e h.opened);
      })
]

deregister-IsSound : (m ch : ℕ) (s : Manager) → IsSound s → IsSound (deregister m ch s)
unfolding deregister
deregister-IsSound m ch s h = elim (Bool-cases (is_newer (find_target s.targets m) ch)) [
  | inl e ↦ rw e h
  | inr e ↦ rw e (record {
    opened = without-are_open s.closed m s.targets h.opened;
    distinct = without-are_distinct m s.targets h.distinct;
    tracked = λ j. ground (arith, h.tracked j, without-has_target m j s.targets);
    calm = h.calm;
  })
]

fire-IsSound : (capacity m : ℕ) (s : Manager) → IsSound s → IsSound (fire capacity m s)
unfolding fire
fire-IsSound capacity m s h =
    fired (s.timers m) _
      (record { opened = h.opened; distinct = h.distinct; tracked = h.tracked; calm = h.calm })
  where
    fired :
        (timer : Option Timer) (r : Manager) → IsSound r → IsSound (fire_timer capacity m timer r)
    fired none r g = g
    fired (some after_register) r g = elim (Bool-cases (has_session r m)) [
      | inl e ↦ rw e (notify_all-IsSound capacity (m ∷ []) r g)
      | inr e ↦ rw e g
    ]
    fired (some after_deregister) r g = elim (Bool-cases (has_session r m)) [
      | inl e ↦ rw e g
      | inr e ↦ rw e (notify_all-IsSound capacity [] r g)
    ]

Step-IsSound : (capacity : ℕ) (s t : Manager) → Step capacity s t → IsSound s → IsSound t
Step-IsSound capacity s t (registers r m ch fresh) h = register-IsSound m ch r fresh h
Step-IsSound capacity s t (deregisters r m ch) h = deregister-IsSound m ch r h
Step-IsSound capacity s t (notifies r ignored) h = notify_all-IsSound capacity ignored r h
Step-IsSound capacity s t (fires r m) h = fire-IsSound capacity m r h

Reachable-IsSound : (capacity : ℕ) (s : Manager) → Reachable capacity s → IsSound s
Reachable-IsSound capacity s starts = record {
  opened = refl;
  distinct = refl;
  tracked = λ m. refl;
  calm = refl;
}
Reachable-IsSound capacity s (continues r t reached step) =
    Step-IsSound capacity r s step (Reachable-IsSound capacity r reached)

-- In every state that the calls and the timers lead to, in any order, where each registration brings
-- a channel that was not registered before: no send and no close has hit a closed channel, no target
-- has a closed channel, and a machine has a session exactly if it has a target.
pub Reachable-has_session :
    (capacity : ℕ) (s : Manager)
    → Reachable capacity s
    → (s.panicked ≡ false)
      × (all (λ t. not (is_in s.closed t.1)) s.targets ≡ true)
      × ((m : ℕ) → has_session s m ≡ has_target s.targets m)
unfolding has_session
Reachable-has_session capacity s r =
    let h = Reachable-IsSound capacity s r in (h.calm, h.opened, h.tracked)

self_eq : (m : ℕ) → (m == m) ≡ true
self_eq m = (==_iff m m).1 refl

-- A poll that ends after its machine has registered another channel changes nothing: the session of
-- the new poll goes on.
pub deregister-register :
    (m old ch : ℕ) (s : Manager) → ch ≢ old → deregister m old (register m ch s) ≡ register m ch s
unfolding deregister register
deregister-register m old ch s p = elim (Bool-cases (ch == old)) [
  | inl e ↦ absurd (p ((==_iff ch old).0 e))
  | inr e ↦ rw (self_eq m) (rw e refl)
]
