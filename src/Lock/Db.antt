-- ===== src/Lock/Db.antt =====
-- The rows that the tailnet lock handlers read and write: machines, and the lock state of each
-- tailnet (internal/domain/tka.go, TailnetTKAState and TKARepository; machine.go's queries).
use ionskale.Prelude.{
  any, ◌++◌, ℕ, String, List, [], ◌∷◌, Bool, false, not, ◌&&◌, Option, none, some, ◌==◌, str_eq,
  keep, map, is_empty, if◌then◌else◌,
}
use ionskale.Machine.{Bytes, Machine}
use ionskale.Lock.Chonk.{Chonk, empty_chonk}

-- TailnetTKAState, with the rows of the tailnet's messages.
pub record LockState : Type 0 where
  pub enabled : Bool
  pub disabled : Bool
  pub head : String
  pub pending_genesis : Bytes
  pub disablement_secret : Bytes
  pub support_disablement : Bytes
  pub chonk : Chonk

-- The state of a tailnet that has no row.
abbrev pub no_lock : LockState
no_lock = record {
  enabled = false;
  disabled = false;
  head = "";
  pending_genesis = [];
  disablement_secret = [];
  support_disablement = [];
  chonk = empty_chonk;
}

-- `notified` records the calls of `NotifyAll`, the latest first.
pub record Db : Type 0 where
  pub machines : List Machine
  pub locks : ℕ → LockState
  pub notified : List ℕ

unfoldable pub get_lock : Db → ℕ → LockState
get_lock db t = db.locks t

abbrev pub put_lock : (ℕ → LockState) → ℕ → LockState → ℕ → LockState
put_lock locks t s u = if t == u then s else locks u

unfoldable pub save_lock : Db → ℕ → LockState → Db
save_lock db t s = record db { locks = put_lock db.locks t s }

unfoldable pub delete_lock : Db → ℕ → Db
unfolding save_lock
delete_lock db t = save_lock db t no_lock

-- An `UPDATE` of the row with the machine's id, or an `INSERT` where there is none.
abbrev pub updated_row : Machine → Machine → Machine
updated_row m n = if n.id == m.id then m else n

unfoldable pub save_machine : Db → Machine → Db
save_machine db m = record db {
  machines =
      if any (λ n. n.id == m.id) db.machines
      then map (updated_row m) db.machines
      else db.machines ++ m ∷ [];
}

abbrev find_machine : (Machine → Bool) → List Machine → Option Machine
find_machine test [] = none
find_machine test (m ∷ ms) = if test m then some m else find_machine test ms

unfoldable pub get_machine_by_keys : Db → String → String → Option Machine
get_machine_by_keys db machine_key node_key =
    find_machine (λ m. str_eq m.machine_key machine_key && str_eq m.node_key node_key) db.machines

unfoldable pub get_machine_by_node_key : Db → ℕ → String → Option Machine
get_machine_by_node_key db t node_key =
    find_machine (λ m. m.tailnet_id == t && str_eq m.node_key node_key) db.machines

unfoldable pub get_machine_by_machine_key : Db → String → Option Machine
get_machine_by_machine_key db machine_key =
    find_machine (λ m. str_eq m.machine_key machine_key) db.machines

unfoldable pub list_machine_by_tailnet : Db → ℕ → List Machine
list_machine_by_tailnet db t = keep (λ m. m.tailnet_id == t) db.machines

unfoldable pub list_machine_key_signatures_by_tailnet : Db → ℕ → List Bytes
list_machine_key_signatures_by_tailnet db t =
    map (λ m. m.key_signature)
      (keep (λ m. m.tailnet_id == t && not (is_empty m.key_signature)) db.machines)

unfoldable pub notify_all : Db → ℕ → Db
notify_all db t = record db { notified = t ∷ db.notified }
