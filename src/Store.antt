-- ===== src/Store.antt =====
-- internal/domain/machine.go: the queries over the rows of machines that the services and the
-- workers use, beside those of the tailnet lock. A query of the database succeeds.
pub mod Rows
pub mod Saves
use ionskale.Prelude.{
  take_first, ℕ, ◌+◌, String, List, [], ◌∷◌, Bool, true, false, not, ◌&&◌, Option, none, some, ◌==◌,
  ltb, leb, str_eq, keep, any, length, if◌then◌else◌,
}
use ionskale.Machine.{Machine, has_ip}
use ionskale.Netip.{Addr, same_addr}
use ionskale.Lock.Db.{Db, save_machine, notify_all}

unfoldable pub get_machine : Db → ℕ → Option Machine
get_machine db id = take_first (λ m. m.id == id) db.machines

unfoldable pub get_machine_by_key_and_user : Db → String → ℕ → Option Machine
get_machine_by_key_and_user db machine_key user_id =
    take_first (λ m. str_eq m.machine_key machine_key && m.user_id == user_id) db.machines

-- The row is gone, and whether one row was.
unfoldable pub delete_machine : Db → ℕ → Bool × Db
delete_machine db id = (
  length (keep (λ m. m.id == id) db.machines) == 1,
  record db { machines = keep (λ m. not (m.id == id)) db.machines },
)

unfoldable pub delete_machine_by_tailnet : Db → ℕ → Db
delete_machine_by_tailnet db t = record db {
  machines = keep (λ m. not (m.tailnet_id == t)) db.machines;
}

unfoldable pub delete_machine_by_user : Db → ℕ → Db
delete_machine_by_user db u = record db { machines = keep (λ m. not (m.user_id == u)) db.machines }

abbrev pub bears_name : ℕ → String → Machine → Bool
bears_name t name m = str_eq m.name name && m.tailnet_id == t

-- The index after the greatest of the rows, and 0 where there is no row.
abbrev pub next_index : List Machine → ℕ
next_index [] = 0
next_index (m ∷ ms) = if ltb m.name_idx (next_index ms) then next_index ms else m.name_idx + 1

-- `Order("name_idx desc")` and `Take`: the row of the greatest index.
unfoldable pub get_next_machine_name_index : Db → ℕ → String → ℕ
get_next_machine_name_index db t name = next_index (keep (bears_name t name) db.machines)

-- The column holds the text of the address, which tells the addresses of the range apart.
unfoldable pub count_machines_with_ipv4 : Db → Addr → ℕ
unfolding same_addr
count_machines_with_ipv4 db ip = length (keep (λ m. same_addr m.ipv4 ip) db.machines)

unfoldable pub count_machine_by_tailnet : Db → ℕ → ℕ
count_machine_by_tailnet db t = length (keep (λ m. m.tailnet_id == t) db.machines)

-- The order by id is left out.
unfoldable pub list_machine_peers : Db → ℕ → ℕ → List Machine
list_machine_peers db t id = keep (λ m. m.tailnet_id == t && not (m.id == id)) db.machines

unfoldable pub list_machines_expired_between : Db → ℕ → ℕ → List Machine
list_machines_expired_between db from to =
    keep (λ m. not m.key_expiry_disabled && ltb from m.expires_at && leb m.expires_at to)
      db.machines

-- `last_seen < t`, which no row without a time satisfies.
abbrev pub seen_before : ℕ → Option ℕ → Bool
seen_before t none = false
seen_before t (some seen) = ltb seen t

unfoldable pub list_inactive_ephemeral_machines : Db → ℕ → List Machine
list_inactive_ephemeral_machines db t =
    keep (λ m. m.ephemeral && seen_before t m.last_seen) db.machines

unfoldable pub set_machine_last_seen : Db → ℕ → ℕ → Db
set_machine_last_seen db id now = record db { machines = map_rows db.machines }
  where
    map_rows : List Machine → List Machine
    map_rows [] = []
    map_rows (m ∷ ms) = (if m.id == id then record m { last_seen = some now } else m) ∷ map_rows ms
