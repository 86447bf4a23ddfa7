-- ===== src/Pollers.antt =====
-- internal/core/session_manager.go: the sessions of one tailnet, with the channel of each machine
-- that polls. A channel is a number; its buffer, the channels that are closed and whether a send or a
-- second close has panicked are part of the state, and so is the timer of each machine.
pub mod Targets
pub mod Safety
use ionskale.Prelude.{
  ℕ, ◌+◌, List, [], ◌∷◌, Bool, true, false, not, ◌&&◌, ◌||◌, Option, none, some, ◌≡◌, ◌==◌, ltb,
  any, keep, if◌then◌else◌,
}

-- What the goroutine of a timer does when it fires.
pub data Timer : Type 0 where
  after_register : Timer
  after_deregister : Timer

pub record Manager : Type 0 where
  pub targets : List (ℕ × ℕ)
  pub timers : ℕ → Option Timer
  pub sessions : ℕ → Bool
  pub buffered : ℕ → ℕ
  pub closed : List ℕ
  pub panicked : Bool

abbrev pub new_manager : Manager
new_manager = record {
  targets = [];
  timers = λ m. none;
  sessions = λ m. false;
  buffered = λ c. 0;
  closed = [];
  panicked = false;
}

abbrev pub is_in : List ℕ → ℕ → Bool
is_in xs x = any (λ y. y == x) xs

abbrev pub find_target : List (ℕ × ℕ) → ℕ → Option ℕ
find_target [] m = none
find_target ((k, ch) ∷ ts) m = if k == m then some ch else find_target ts m

abbrev pub without : ℕ → List (ℕ × ℕ) → List (ℕ × ℕ)
without m ts = keep (λ t. not (t.0 == m)) ts

abbrev pub set {ℓ} : {A : Type ℓ} → (ℕ → A) → ℕ → A → ℕ → A
set f k v j = if k == j then v else f j

-- `close(ch)`.
unfoldable pub close_channel : ℕ → Manager → Manager
close_channel ch s = record s { closed = ch ∷ s.closed; panicked = s.panicked || is_in s.closed ch }

-- The send of a ping, left out where the buffer of the channel is full.
unfoldable pub send_ping : ℕ → ℕ → Manager → Manager
send_ping capacity ch s = record s {
  buffered =
      if ltb (s.buffered ch) capacity then set s.buffered ch (s.buffered ch + 1) else s.buffered;
  panicked = s.panicked || is_in s.closed ch;
}

-- The loop of `NotifyAll`, over the targets.
unfoldable pub ping_targets : ℕ → List ℕ → List (ℕ × ℕ) → Manager → Manager
unfolding send_ping
ping_targets capacity ignored [] s = s
ping_targets capacity ignored ((m, ch) ∷ ts) s =
    ping_targets capacity ignored ts (if is_in ignored m then s else send_ping capacity ch s)

unfoldable pub notify_all : ℕ → List ℕ → Manager → Manager
unfolding ping_targets
notify_all capacity ignored s = ping_targets capacity ignored s.targets s

unfoldable pub has_session : Manager → ℕ → Bool
has_session s m = s.sessions m

abbrev pub close_current : Option ℕ → Manager → Manager
close_current none s = s
close_current (some curr) s = close_channel curr s

-- A stopped timer does not fire: the timer of a machine is the latest.
unfoldable pub register : ℕ → ℕ → Manager → Manager
unfolding close_channel
register m ch s =
    let closing = close_current (find_target s.targets m) s in
    record closing {
      targets = (m, ch) ∷ without m s.targets;
      sessions = set s.sessions m true;
      timers = set s.timers m (some after_register);
    }

abbrev pub is_newer : Option ℕ → ℕ → Bool
is_newer none ch = false
is_newer (some curr) ch = not (curr == ch)

unfoldable pub deregister : ℕ → ℕ → Manager → Manager
deregister m ch s = if is_newer (find_target s.targets m) ch then s else record s {
  targets = without m s.targets;
  sessions = set s.sessions m false;
  timers = set s.timers m (some after_deregister);
}

abbrev pub fire_timer : ℕ → ℕ → Option Timer → Manager → Manager
fire_timer capacity m none s = s
fire_timer capacity m (some after_register) s =
    if has_session s m then notify_all capacity (m ∷ []) s else s
fire_timer capacity m (some after_deregister) s =
    if not (has_session s m) then notify_all capacity [] s else s

-- The goroutine that waits for the timer of a machine; a timer fires once.
unfoldable pub fire : ℕ → ℕ → Manager → Manager
unfolding notify_all has_session
fire capacity m s = fire_timer capacity m (s.timers m) (record s { timers = set s.timers m none })

-- A channel that was not registered before: the poll handler makes one for each poll.
abbrev pub is_fresh : Manager → ℕ → Bool
is_fresh s ch = not (is_in s.closed ch) && not (any (λ t. t.1 == ch) s.targets)

-- One call of the manager, or the firing of a timer.
pub data Step (capacity : ℕ) : Manager → Manager → Type 0 where
  registers : (s : Manager) (m ch : ℕ) → is_fresh s ch ≡ true → Step capacity s (register m ch s)
  deregisters : (s : Manager) (m ch : ℕ) → Step capacity s (deregister m ch s)
  notifies : (s : Manager) (ignored : List ℕ) → Step capacity s (notify_all capacity ignored s)
  fires : (s : Manager) (m : ℕ) → Step capacity s (fire capacity m s)

pub data Reachable (capacity : ℕ) : Manager → Type 0 where
  starts : Reachable capacity new_manager
  continues : (s t : Manager) → Reachable capacity s → Step capacity s t → Reachable capacity t
