-- ===== src/Service.antt =====
-- internal/service/machine.go: what a call of the API answers, and the check that each handler of
-- machine.go makes first. A query of the database succeeds, so that an error which is not the
-- client's comes only from a text that does not parse.
pub mod Machines
pub mod Answers
pub mod Steps
pub mod Invariant
pub mod Isolation
pub mod Routes
pub mod Expiry
pub mod AuthKeys
pub mod Users
pub mod Provisioning
pub mod Tailnets
pub mod Issued
use ionskale.Prelude.{ℕ, Bool, true, false, Option, none, some, if◌then◌else◌}
use ionskale.Machine.{Machine}
use ionskale.Lock.Db.{Db, save_machine, notify_all}
use ionskale.Store.{get_machine}
use ionskale.Identity.{Principal, is_system_admin, is_tailnet_admin}

-- The codes of connect.Error that the handlers use.
pub data Code : Type 0 where
  not_found : Code
  permission_denied : Code
  invalid_argument : Code
  already_exists : Code
  failed_precondition : Code

-- A handler answers, refuses with a code, fails with an internal error, or panics.
pub data Answer {ℓ} (A : Type ℓ) : Type ℓ where
  answer : A → Answer A
  refused : Code → Answer A
  internal : Answer A
  crash : Answer A

infixl 5 ◌>>=◌
abbrev pub ◌>>=◌ {ℓ κ} : {A : Type ℓ} {B : Type κ} → Answer A → (A → Answer B) → Answer B
answer a >>= f = f a
refused code >>= f = refused code
internal >>= f = internal
crash >>= f = crash

abbrev pub or_refused {ℓ} : {A : Type ℓ} → Option A → Code → Answer A
or_refused none code = refused code
or_refused (some a) code = answer a

abbrev pub or_internal {ℓ} : {A : Type ℓ} → Option A → Answer A
or_internal none = internal
or_internal (some a) = answer a

abbrev pub demand : Bool → Code → Answer (Unit {0})
demand true code = answer tt
demand false code = refused code

-- `!principal.IsTailnetAdmin(…)`, with its panic.
abbrev pub tailnet_check : Option Bool → Answer (Unit {0})
tailnet_check none = crash
tailnet_check (some true) = answer tt
tailnet_check (some false) = refused permission_denied

-- `!principal.IsSystemAdmin() && !principal.IsTailnetAdmin(t)`.
unfoldable pub allowed : Principal → ℕ → Answer (Unit {0})
unfolding is_system_admin is_tailnet_admin
allowed p t = if is_system_admin p then answer tt else tailnet_check (is_tailnet_admin p t)

-- The machine of the call, where there is one and the principal may administer its tailnet.
unfoldable pub permitted : Principal → Db → ℕ → Answer Machine
unfolding get_machine allowed
permitted p db id = do
  m ← or_refused (get_machine db id) not_found
  _ ← allowed p m.tailnet_id
  answer m

-- `SaveMachine`, and then `NotifyAll` of the machine's tailnet.
unfoldable pub save_and_notify : Db → Machine → Db
unfolding save_machine notify_all
save_and_notify db m = notify_all (save_machine db m) m.tailnet_id
