-- ===== src/Service/Machines.antt =====
-- internal/service/machine.go: the handlers that show and change one machine.
use ionskale.Prelude.{
  any, ◌==◌, ℕ, ◌+◌, ◌*◌, ◌^◌, String, List, [], ◌∷◌, Bool, true, false, not, Option, none, some,
  str_eq, ltb, if◌then◌else◌,
}
use ionskale.Netip.{Prefix, AddrText}
use ionskale.Machine.{
  Machine, advertised_prefixes, allowed_prefixes, is_advertised_exit_node, is_allowed_exit_node,
}
use ionskale.AllowIps.{add_prefixes, new_allow_ips_set, remove_prefixes, prefixes}
use ionskale.Lock.Db.{Db, save_machine, notify_all, list_machine_by_tailnet}
use ionskale.Store.{delete_machine, get_next_machine_name_index}
use ionskale.Identity.{Principal}
use ionskale.Service.{
  Answer, answer, refused, not_found, invalid_argument, already_exists, ◌>>=◌, or_internal, demand,
  permitted, allowed, save_and_notify,
}

-- api.MachineRoutes.
pub record MachineRoutes : Type 0 where
  pub advertised_routes : List String
  pub enabled_routes : List String
  pub advertised_exit_node : Bool
  pub enabled_exit_node : Bool

-- The two library functions on names that `SetMachineName` calls.
pub record NameLib : Type 0 where
  pub sanitize_hostname : String → String
  pub trim_space : String → String

-- `time.Unix(123, 0)`, counted from the year 1 in nanoseconds.
abbrev pub long_ago : ℕ
long_ago = (62135596800 + 123) * 10 ^ 9

-- `0.0.0.0/0` and `::/0`.
abbrev pub exit_prefixes : List Prefix
exit_prefixes =
    record { addr = record { is4 = true; value = 0; zone = "" }; bits = 0 }
    ∷ record { addr = record { is4 = false; value = 0; zone = "" }; bits = 0 }
    ∷ []

-- The last part of `SetMachineName`, with the name that was asked for.
unfoldable pub rename : Db → Machine → String → Answer Db
unfolding get_next_machine_name_index save_and_notify
rename db m sanitized =
    if str_eq sanitized m.name
    then answer db
    else if ltb 0 (get_next_machine_name_index db m.tailnet_id sanitized)
    then refused already_exists
    else answer
        (save_and_notify db (record m { name = sanitized; name_idx = 0; use_os_hostname = false }))

module _ (p : Principal) (db : Db) (id : ℕ) where
  unfoldable pub read_machine : Answer Machine
  unfolding permitted
  read_machine = permitted p db id

  unfoldable pub remove_machine : Answer Db
  unfolding permitted delete_machine notify_all
  remove_machine = do
    m ← permitted p db id
    answer (notify_all (delete_machine db id).1 m.tailnet_id)

  unfoldable pub expire_machine : Answer Db
  unfolding permitted save_and_notify
  expire_machine = do
    m ← permitted p db id
    answer (save_and_notify db (record m { expires_at = long_ago; key_expiry_disabled = false }))

  unfoldable pub set_machine_name : NameLib → Bool → String → Answer Db
  unfolding permitted get_next_machine_name_index save_and_notify rename
  set_machine_name lib true name = do
    m ← permitted p db id
    let sanitized = lib.sanitize_hostname m.host_info.hostname
    answer (
        save_and_notify db (record m {
          name = sanitized;
          name_idx = get_next_machine_name_index db m.tailnet_id sanitized;
          use_os_hostname = true;
        }))
  set_machine_name lib false name = do
    m ← permitted p db id
    _ ← demand (not (str_eq (lib.trim_space name) "")) invalid_argument
    rename db m (lib.sanitize_hostname name)

  unfoldable pub authorize_machine : Answer Db
  unfolding permitted save_machine notify_all
  authorize_machine = do
    m ← permitted p db id
    let saved = if m.authorized then db else save_machine db (record m { authorized = true })
    answer (notify_all saved m.tailnet_id)

  unfoldable pub set_machine_key_expiry : Bool → Answer Db
  unfolding permitted save_and_notify
  set_machine_key_expiry disabled = do
    m ← permitted p db id
    answer (save_and_notify db (record m { key_expiry_disabled = disabled }))

-- `tailnets` are the ids of the stored tailnets.
unfoldable pub list_machines : Principal → Db → List ℕ → ℕ → Answer (List Machine)
unfolding allowed list_machine_by_tailnet
list_machines p db tailnets t = do
  _ ← allowed p t
  _ ← demand (any (λ u. u == t) tailnets) not_found
  answer (list_machine_by_tailnet db t)

-- `netip.ParsePrefix` of each text, where all of them parse.
abbrev pub parse_all : (String → Option Prefix) → List String → Option (List Prefix)
parse_all parse [] = some []
parse_all parse (r ∷ rs) = elim (parse r) [
  | none ↦ none
  | some q ↦ elim (parse_all parse rs) [ none ↦ none | some qs ↦ some (q ∷ qs) ]
]

module _ (net : AddrText) where
  unfoldable pub routes_of : Machine → MachineRoutes
  unfolding advertised_prefixes allowed_prefixes is_advertised_exit_node is_allowed_exit_node
  routes_of m = record {
    advertised_routes = advertised_prefixes net m;
    enabled_routes = allowed_prefixes net m;
    advertised_exit_node = is_advertised_exit_node m;
    enabled_exit_node = is_allowed_exit_node m;
  }

  -- The machine is saved with new routes, which are the answer.
  abbrev pub with_routes : Db → Machine → List Prefix → List Prefix → Answer (MachineRoutes × Db)
  with_routes db m allow auto =
      let m' = record m { allow_ips = allow; auto_allow_ips = auto } in
      answer (routes_of m', save_and_notify db m')

  module _ (p : Principal) (db : Db) (id : ℕ) where
    unfoldable pub get_machine_routes : Answer MachineRoutes
    unfolding permitted routes_of
    get_machine_routes = do m ← permitted p db id; answer (routes_of m)

    unfoldable pub enable_machine_routes : List String → Bool → Answer (MachineRoutes × Db)
    unfolding permitted new_allow_ips_set add_prefixes prefixes routes_of save_and_notify
    enable_machine_routes routes replace = do
      m ← permitted p db id
      added ← or_internal (parse_all net.parse_prefix routes)
      let allow = if replace then new_allow_ips_set [] else new_allow_ips_set m.allow_ips
      let auto = if replace then new_allow_ips_set [] else new_allow_ips_set m.auto_allow_ips
      with_routes db m (prefixes (add_prefixes allow added)) (prefixes auto)

    unfoldable pub disable_machine_routes : List String → Answer (MachineRoutes × Db)
    unfolding permitted new_allow_ips_set remove_prefixes prefixes routes_of save_and_notify
    disable_machine_routes routes = do
      m ← permitted p db id
      removed ← or_internal (parse_all net.parse_prefix routes)
      with_routes db m (prefixes (remove_prefixes (new_allow_ips_set m.allow_ips) removed))
          (prefixes (remove_prefixes (new_allow_ips_set m.auto_allow_ips) removed))

    unfoldable pub enable_exit_node : Answer (MachineRoutes × Db)
    unfolding permitted is_advertised_exit_node new_allow_ips_set add_prefixes prefixes routes_of
        save_and_notify
    enable_exit_node = do
      m ← permitted p db id
      _ ← demand (is_advertised_exit_node m) invalid_argument
      with_routes db m (prefixes (add_prefixes (new_allow_ips_set m.allow_ips) exit_prefixes))
          m.auto_allow_ips

    unfoldable pub disable_exit_node : Answer (MachineRoutes × Db)
    unfolding permitted is_advertised_exit_node new_allow_ips_set remove_prefixes prefixes routes_of
        save_and_notify
    disable_exit_node = do
      m ← permitted p db id
      _ ← demand (is_advertised_exit_node m) invalid_argument
      with_routes db m (prefixes (remove_prefixes (new_allow_ips_set m.allow_ips) exit_prefixes))
          (prefixes (remove_prefixes (new_allow_ips_set m.auto_allow_ips) exit_prefixes))
