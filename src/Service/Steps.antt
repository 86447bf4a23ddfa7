-- ===== src/Service/Steps.antt =====
-- internal/service/machine.go: what the handlers do to the database, whatever they are asked.
use ionskale.Prelude.{
  ℕ, String, List, [], Bool, true, false, not, some, ◌≡◌, ◌⊎◌, inl, inr, refl, ap, sym, subst, ◌∙◌,
  All, All-map, arith, str_eq, ltb, if◌then◌else◌,
}
use ionskale.Netip.{Prefix, AddrText}
use ionskale.Machine.{Machine, is_advertised_exit_node}
use ionskale.Lock.Db.{Db, save_machine, notify_all}
use ionskale.AllowIps.{add_prefixes, new_allow_ips_set, remove_prefixes, prefixes}
use ionskale.Store.{get_machine, delete_machine, get_next_machine_name_index}
use ionskale.Store.Rows.{get_machine-Row, get_next_machine_name_index-unused}
use ionskale.Identity.{Principal}
use ionskale.Service.{
  Answer, answer, refused, ◌>>=◌, or_internal, demand, permitted, save_and_notify, allowed,
  or_refused, not_found, invalid_argument, already_exists,
}
use ionskale.Service.Answers.{answer_inj, >>=-answer, or_refused-answer}
use ionskale.Service.Machines.{
  NameLib, MachineRoutes, remove_machine, expire_machine, set_machine_name, rename,
  authorize_machine, set_machine_key_expiry, enable_machine_routes, disable_machine_routes,
  enable_exit_node, disable_exit_node, with_routes, parse_all, exit_prefixes,
}

-- The calls that may change a machine.
pub data Call : Type 0 where
  remove : Call
  expire : Call
  set_name : Bool → String → Call
  authorize : Call
  set_key_expiry : Bool → Call
  enable_routes : List String → Bool → Call
  disable_routes : List String → Call
  enable_exit : Call
  disable_exit : Call

abbrev left : Answer (MachineRoutes × Db) → Answer Db
left r = r >>= λ s. answer s.1

-- The database that a call leaves.
module _ (lib : NameLib) (net : AddrText) (p : Principal) (db : Db) (id : ℕ) where
  unfoldable pub serve : Call → Answer Db
  unfolding remove_machine expire_machine set_machine_name authorize_machine set_machine_key_expiry
      enable_machine_routes disable_machine_routes enable_exit_node disable_exit_node
  serve remove = remove_machine p db id
  serve expire = expire_machine p db id
  serve (set_name use_os_hostname name) = set_machine_name p db id lib use_os_hostname name
  serve authorize = authorize_machine p db id
  serve (set_key_expiry disabled) = set_machine_key_expiry p db id disabled
  serve (enable_routes routes replace) = left (enable_machine_routes net p db id routes replace)
  serve (disable_routes routes) = left (disable_machine_routes net p db id routes)
  serve enable_exit = left (enable_exit_node net p db id)
  serve disable_exit = left (disable_exit_node net p db id)

-- No row of the tailnet has the machine's name with its index.
abbrev pub IsFreshName : Db → Machine → Type 0
IsFreshName db m =
    All (λ n. n.tailnet_id ≡ m.tailnet_id → n.name ≡ m.name → n.name_idx ≡ m.name_idx → ⊥)
      db.machines

-- The machine is the same row, with its name or with one that no row of the tailnet has.
pub record IsEdit (db : Db) (m m' : Machine) : Type 0 where
  pub same_id : m'.id ≡ m.id
  pub same_tailnet : m'.tailnet_id ≡ m.tailnet_id
  pub named : ((m'.name ≡ m.name) × (m'.name_idx ≡ m.name_idx)) ⊎ IsFreshName db m'

-- What a call does to the database, where `m` is the machine that it names.
pub data Step (db : Db) (m : Machine) : Db → Type 0 where
  unchanged : Step db m db
  told : Step db m (notify_all db m.tailnet_id)
  edited : (m' : Machine) → IsEdit db m m' → Step db m (save_and_notify db m')
  removed : (id : ℕ) → id ≡ m.id → Step db m (notify_all (delete_machine db id).1 m.tailnet_id)

-- The machine that a call may change is the one of its id, in a tailnet that the principal may
-- administer.
pub permitted_lem :
    (p : Principal) (db : Db) (id : ℕ) (m : Machine)
    → permitted p db id ≡ answer m
    → (get_machine db id ≡ some m) × (allowed p m.tailnet_id ≡ answer tt)
unfolding permitted
permitted_lem p db id m h =
    let (n, found, h1) = >>=-answer (or_refused (get_machine db id) not_found) _ m h in
    let (_, granted, h2) = >>=-answer (allowed p n.tailnet_id) _ m h1 in
    let same = answer_inj h2 in
    (
      or_refused-answer (get_machine db id) not_found n found ∙ ap some same,
      subst (λ k. allowed p k.tailnet_id ≡ answer tt) same granted,
    )

-- A machine with the index that is given next bears a name that no row has.
fresh_name :
    (db : Db) (m : Machine)
    → m.name_idx ≡ get_next_machine_name_index db m.tailnet_id m.name
    → IsFreshName db m
fresh_name db m e =
    All-map db.machines (λ n below t x i. let lt = below t x in omega arith)
      (get_next_machine_name_index-unused db m.tailnet_id m.name)

named_first : (next : ℕ) → ltb 0 next ≡ false → 0 ≡ next
named_first next h = ground arith

branch :
    (b : Bool) (x y : Answer Db) (db' : Db)
    → (if b then x else y) ≡ answer db'
    → ((b ≡ true) × (x ≡ answer db')) ⊎ ((b ≡ false) × (y ≡ answer db'))
branch true x y db' h = inl (refl, h)
branch false x y db' h = inr (refl, h)

module _ (lib : NameLib) (net : AddrText) (p : Principal) (db : Db) (id : ℕ) where
  -- The step of an edit that keeps the machine's id, tailnet and name.
  kept :
      (m m' : Machine) (db' : Db)
      → m'.id ≡ m.id
      → m'.tailnet_id ≡ m.tailnet_id
      → m'.name ≡ m.name
      → m'.name_idx ≡ m.name_idx
      → answer (save_and_notify db m') ≡ answer db'
      → Step db m db'
  kept m m' db' i t n x h =
      subst (Step db m) (answer_inj h)
        (edited m' (record { same_id = i; same_tailnet = t; named = inl (n, x) }))

  renamed :
      (m m' : Machine) (db' : Db)
      → m'.id ≡ m.id
      → m'.tailnet_id ≡ m.tailnet_id
      → m'.name_idx ≡ get_next_machine_name_index db m'.tailnet_id m'.name
      → answer (save_and_notify db m') ≡ answer db'
      → Step db m db'
  renamed m m' db' i t x h =
      subst (Step db m) (answer_inj h)
        (edited m' (record { same_id = i; same_tailnet = t; named = inr (fresh_name db m' x) }))

  rename-Step :
      (m : Machine) (sanitized : String) (db' : Db)
      → rename db m sanitized ≡ answer db'
      → Step db m db'
  unfolding rename
  rename-Step m sanitized db' h =
      let next = get_next_machine_name_index db m.tailnet_id sanitized in
      elim (branch (str_eq sanitized m.name) _ _ db' h) [
        | inl (_, e) ↦ subst (Step db m) (answer_inj e) unchanged
        | inr (_, h1) ↦ elim (branch (ltb 0 next) _ _ db' h1) [
          | inl (_, e) ↦ absurd (let z : refused already_exists ≡ answer db' = e in cc)
          | inr (first, e) ↦ renamed m _ db' refl refl (named_first next first) e
        ]
      ]

  routed :
      (m : Machine) (allow auto : List Prefix) (s : MachineRoutes × Db) (db' : Db)
      → with_routes net db m allow auto ≡ answer s
      → answer s.1 ≡ answer db'
      → Step db m db'
  routed m allow auto s db' h e =
      kept m (record m { allow_ips = allow; auto_allow_ips = auto }) db' refl refl refl refl
        (ap (λ r. r >>= λ t. answer t.1) h ∙ e)

  authorized_step :
      (m : Machine) (b : Bool) (db' : Db)
      → notify_all (if b then db else save_machine db (record m { authorized = true })) m.tailnet_id
        ≡ db'
      → Step db m db'
  unfolding save_and_notify
  authorized_step m true db' h = subst (Step db m) h told
  authorized_step m false db' h =
      kept m (record m { authorized = true }) db' refl refl refl refl (ap answer h)

  -- Each call that answers has found a machine that the principal may administer, and makes one
  -- step at it.
  pub serve-Step :
      (call : Call) (db' : Db)
      → serve lib net p db id call ≡ answer db'
      → (m : Machine) × (permitted p db id ≡ answer m) × Step db m db'
  unfolding serve
  serve-Step remove db' h =
      let (m, found, e) = >>=-answer (permitted p db id) _ db' h in
      let (_, same) = get_machine-Row db id m ((permitted_lem p db id m found).0) in
      (m, found, subst (Step db m) (answer_inj e) (removed id (sym same)))
  serve-Step expire db' h =
      let (m, found, e) = >>=-answer (permitted p db id) _ db' h in
      (m, found, kept m _ db' refl refl refl refl e)
  serve-Step (set_name true name) db' h =
      let (m, found, e) = >>=-answer (permitted p db id) _ db' h in
      (m, found, renamed m _ db' refl refl refl e)
  serve-Step (set_name false name) db' h =
      let (m, found, h1) = >>=-answer (permitted p db id) _ db' h in
      let (_, _, h2) =
        >>=-answer (demand (not (str_eq (lib.trim_space name) "")) invalid_argument) _ db' h1 in
      (m, found, rename-Step m (lib.sanitize_hostname name) db' h2)
  serve-Step authorize db' h =
      let (m, found, e) = >>=-answer (permitted p db id) _ db' h in
      (m, found, authorized_step m m.authorized db' (answer_inj e))
  serve-Step (set_key_expiry disabled) db' h =
      let (m, found, e) = >>=-answer (permitted p db id) _ db' h in
      (m, found, kept m _ db' refl refl refl refl e)
  serve-Step (enable_routes routes replace) db' h =
      let (s, h1, e) = >>=-answer (enable_machine_routes net p db id routes replace) _ db' h in
      let (m, found, h2) = >>=-answer (permitted p db id) _ s h1 in
      let (added, _, h3) = >>=-answer (or_internal (parse_all net.parse_prefix routes)) _ s h2 in
      (
        m,
        found,
        routed m
            (prefixes (
              add_prefixes (if replace then new_allow_ips_set [] else new_allow_ips_set m.allow_ips)
                added))
            (prefixes
              (if replace then new_allow_ips_set [] else new_allow_ips_set m.auto_allow_ips))
            s db' h3 e,
      )
  serve-Step (disable_routes routes) db' h =
      let (s, h1, e) = >>=-answer (disable_machine_routes net p db id routes) _ db' h in
      let (m, found, h2) = >>=-answer (permitted p db id) _ s h1 in
      let (gone, _, h3) = >>=-answer (or_internal (parse_all net.parse_prefix routes)) _ s h2 in
      (
        m,
        found,
        routed m (prefixes (remove_prefixes (new_allow_ips_set m.allow_ips) gone))
            (prefixes (remove_prefixes (new_allow_ips_set m.auto_allow_ips) gone)) s db' h3 e,
      )
  serve-Step enable_exit db' h =
      let (s, h1, e) = >>=-answer (enable_exit_node net p db id) _ db' h in
      let (m, found, h2) = >>=-answer (permitted p db id) _ s h1 in
      let (_, _, h3) = >>=-answer (demand (is_advertised_exit_node m) invalid_argument) _ s h2 in
      (
        m,
        found,
        routed m (prefixes (add_prefixes (new_allow_ips_set m.allow_ips) exit_prefixes))
            m.auto_allow_ips s db' h3 e,
      )
  serve-Step disable_exit db' h =
      let (s, h1, e) = >>=-answer (disable_exit_node net p db id) _ db' h in
      let (m, found, h2) = >>=-answer (permitted p db id) _ s h1 in
      let (_, _, h3) = >>=-answer (demand (is_advertised_exit_node m) invalid_argument) _ s h2 in
      (
        m,
        found,
        routed m (prefixes (remove_prefixes (new_allow_ips_set m.allow_ips) exit_prefixes))
            (prefixes (remove_prefixes (new_allow_ips_set m.auto_allow_ips) exit_prefixes)) s db' h3
            e,
      )
