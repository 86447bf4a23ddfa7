-- ===== src/Registration/Entry.antt =====
-- internal/handlers/registration.go: what a registration with an auth key does to the rows of machines.
use ionskale.Prelude.{
  ◌<◌, ℕ, String, List, ◌++◌, Bool, true, false, not, ◌&&◌, ◌||◌, ◌≡◌, ◌⊎◌, inl, inr, refl, ap, sym,
  ◌∙◌, subst, if◌then◌else◌, Bool-cases, str_eq, is_empty, All, contains, take_first-Any,
}
use ionskale.Netip.{AddrText}
use ionskale.StringSet.{empty, items}
use ionskale.StringSet.Laws.{contains-append, contains-items-add}
use ionskale.Machine.{Bytes, Machine}
use ionskale.Acl.Owners.{Owns, check_tag_owners-Owns}
use ionskale.Address.Search.{select_ip-IsFree}
use ionskale.Identity.{Keys, AuthKey, loaded, load_auth_key}
use ionskale.Lock.Tka.{TkaLib}
use ionskale.Lock.Db.{Db}
use ionskale.Lock.Registration.{LockRequest, apply_tailnet_lock_registration}
use ionskale.Store.{get_machine_by_key_and_user, get_next_machine_name_index}
use ionskale.Store.Rows.{Row, Row-saved}
use ionskale.Store.Saves.{Row-save_machine}
use ionskale.Registration.{RegisterRequest, lock_request, RegisterResponse, Env, replied}
use ionskale.Registration.Handlers.{
  sanitize_tags, check_ip, new_machine, renewed_machine, authenticate_machine_with_auth_key,
  follow_hostname,
}
use ionskale.Registration.Answers.{IsEntrant, all_tags, authenticate-IsAnswer}
use ionskale.Registration.Addresses.{HasUniqueAddresses, unused_address, save-HasUniqueAddresses}

-- What the lock part of a registration leaves alone.
pub lock_keeps :
    {B : Type 0} (f : Machine → B) (tka : TkaLib) (db : Db) (t : ℕ) (m : Machine)
    (req : LockRequest)
    → ((n : Machine) (s : Bytes) → f (record n { key_signature = s }) ≡ f n)
    → ((n : Machine) (s : String) → f (record n { nl_key = s }) ≡ f n)
    → f (apply_tailnet_lock_registration tka db t m req) ≡ f m
unfolding apply_tailnet_lock_registration
lock_keeps f tka db t m req g h =
    three_ways (is_empty req.node_key_signature) _ _ _ _ named (g _ req.node_key_signature ∙ named)
  where
    named : f (if str_eq req.nl_key "" then m else record m { nl_key = req.nl_key }) ≡ f m
    named = elim (Bool-cases (str_eq req.nl_key "")) [
      | inl e ↦ rw e refl
      | inr e ↦ rw e (h m req.nl_key)
    ]

    three_ways :
        (a b c : Bool) (x y : Machine)
        → f x ≡ f m
        → f y ≡ f m
        → f (if a then x else if b then x else if c then y else x) ≡ f m
    three_ways true b c x y p q = p
    three_ways false true c x y p q = p
    three_ways false false true x y p q = q
    three_ways false false false x y p q = p

pub contains-sanitize_tags :
    (xs : List String) (t : String) → contains (sanitize_tags xs) t ≡ contains xs t
unfolding sanitize_tags items contains
contains-sanitize_tags xs t = contains-items-add empty xs t

contains-all_tags :
    (xs ys : List String) (t : String)
    → contains (sanitize_tags (xs ++ sanitize_tags ys)) t ≡ (contains xs t || contains ys t)
contains-all_tags xs ys t =
    contains-sanitize_tags (xs ++ sanitize_tags ys) t
    ∙ contains-append xs (sanitize_tags ys) t
    ∙ ap (λ b. contains xs t || b) (contains-sanitize_tags ys t)

follow_keeps :
    {B : Type 0} (f : Machine → B) (db : Db) (m : Machine) (t : ℕ) (s : String)
    → ((name : String) (i : ℕ) → f (record m { name = name; name_idx = i }) ≡ f m)
    → f (follow_hostname db m t s) ≡ f m
unfolding follow_hostname
follow_keeps f db m t s h = elim (Bool-cases (m.use_os_hostname && not (str_eq m.name s))) [
  | inl e ↦ rw e (h s (get_next_machine_name_index db t s))
  | inr e ↦ rw e refl
]

module _ (tka : TkaLib) (env : Env) (machine_key : String) (net : AddrText) where
  abbrev completed : Db → RegisterRequest → AuthKey → Machine → Machine
  completed db req k m = apply_tailnet_lock_registration tka db k.tailnet.id m (lock_request req)

  -- The address of a machine that enters is its row's, or no row's.
  entrant_address :
      (db : Db) (req : RegisterRequest) (k : AuthKey) (m : Machine)
      → env.random_number < env.range.ipv4_count
      → HasUniqueAddresses db
      → IsEntrant tka env machine_key net db req k m
      → (n : Machine) → Row n db
      → n.ipv4 ≡ (completed db req k m).ipv4
      → n.id ≡ (completed db req k m).id
  unfolding renewed_machine new_machine get_machine_by_key_and_user
  entrant_address db req k m below h (inl (old, found, e)) n at same =
      let (row, _) = take_first-Any _ db.machines old found in
      let ip : (completed db req k m).ipv4 ≡ old.ipv4 =
        lock_keeps (λ j. j.ipv4) tka db k.tailnet.id m (lock_request req) (λ j s. refl)
          (λ j s. refl)
        ∙ ap (λ j. j.ipv4) e
        ∙ follow_keeps (λ j. j.ipv4) db old k.tailnet.id (env.sanitize_hostname req.hostname)
            (λ x i. refl) in
      let id : (completed db req k m).id ≡ old.id =
        lock_keeps (λ j. j.id) tka db k.tailnet.id m (lock_request req) (λ j s. refl) (λ j s. refl)
        ∙ ap (λ j. j.id) e
        ∙ follow_keeps (λ j. j.id) db old k.tailnet.id (env.sanitize_hostname req.hostname)
            (λ x i. refl) in
      h n old at row (same ∙ ip) ∙ sym id
  entrant_address db req k m below h (inr (ip4, ip6, found, e)) n at same =
      let (_, _, passed, _) =
        select_ip-IsFree env.range (check_ip db) env.random_number ip4 ip6 below found in
      let ip : (completed db req k m).ipv4 ≡ ip4 =
        lock_keeps (λ j. j.ipv4) tka db k.tailnet.id m (lock_request req) (λ j s. refl)
          (λ j s. refl)
        ∙ ap (λ j. j.ipv4) e in
      absurd (unused_address db ip4 n passed at (same ∙ ip))

  -- Where no two machines have one IPv4 address, and the random number is below the count of the range,
  -- this still holds after a registration with an auth key that is replied to.
  pub authenticate-HasUniqueAddresses :
      (db : Db) (keys : Keys) (req : RegisterRequest) (r : RegisterResponse) (db' : Db)
      → env.random_number < env.range.ipv4_count
      → HasUniqueAddresses db
      → authenticate_machine_with_auth_key tka env machine_key net db keys req ≡ replied r db'
      → HasUniqueAddresses db'
  authenticate-HasUniqueAddresses db keys req r db' below h e =
      elim (authenticate-IsAnswer tka env machine_key net db keys req r db' e) [
        | inl (same, _) ↦ subst HasUniqueAddresses (sym same) h
        | inr (entry, _) ↦ subst HasUniqueAddresses entry.saved (
            save-HasUniqueAddresses db (completed db req entry.key entry.machine) h
              (entrant_address db req entry.key entry.machine below h entry.entrant))
      ]

  entrant_tags :
      (db : Db) (req : RegisterRequest) (k : AuthKey) (m : Machine)
      → IsEntrant tka env machine_key net db req k m
      → m.tags ≡ sanitize_tags (all_tags tka env machine_key net req k)
  unfolding renewed_machine new_machine
  entrant_tags db req k m (inl (old, found, e)) = ap (λ j. j.tags) e
  entrant_tags db req k m (inr (ip4, ip6, found, e)) = ap (λ j. j.tags) e

  -- Where a registration with an auth key is replied to as authorized, the key is stored and loaded,
  -- and a row that is left has exactly the key's tags and the ones of the request, which the user
  -- of the key owns each as a service, by name or by a group.
  pub authenticate-Owns :
      (db : Db) (keys : Keys) (req : RegisterRequest) (r : RegisterResponse) (db' : Db)
      → authenticate_machine_with_auth_key tka env machine_key net db keys req ≡ replied r db'
      → r.machine_authorized ≡ true
      → (k : AuthKey) × (m : Machine) × (load_auth_key env.compare_hash env.now keys req.auth_key
          ≡ loaded k)
        × Row m db'
        × ((t : String) → contains m.tags t ≡ (contains k.tags t || contains req.request_tags t))
        × All (Owns k.tailnet.acl_policy k.user) req.request_tags
  authenticate-Owns db keys req r db' e accepted =
      elim (authenticate-IsAnswer tka env machine_key net db keys req r db' e) [
        | inl (_, refused) ↦ absurd (let z : true ≡ false = sym accepted ∙ refused in cc)
        | inr (entry, _) ↦
            let k = entry.key in
            let m = completed db req k entry.machine in
            let tags : m.tags ≡ sanitize_tags (all_tags tka env machine_key net req k) =
              lock_keeps (λ j. j.tags) tka db k.tailnet.id entry.machine (lock_request req)
                (λ j s. refl) (λ j s. refl)
              ∙ entrant_tags db req k entry.machine entry.entrant in
            (
              k,
              m,
              entry.is_loaded,
              subst (Row m) entry.saved (Row-saved db m),
              (λ t. ap (λ ts. contains ts t) tags ∙ contains-all_tags k.tags req.request_tags t),
              check_tag_owners-Owns k.tailnet.acl_policy req.request_tags k.user entry.owned,
            )
      ]

  entrant_authorized :
      (db : Db) (req : RegisterRequest) (k : AuthKey) (m : Machine)
      → IsEntrant tka env machine_key net db req k m
      → m.authorized ≡ true
      → ((o : Machine) × Row o db × (o.id ≡ m.id) × (o.authorized ≡ true))
        ⊎ ((not k.tailnet.machine_authorization_enabled || k.pre_authorized) ≡ true)
  unfolding renewed_machine new_machine get_machine_by_key_and_user
  entrant_authorized db req k m (inl (old, found, e)) h =
      let (row, _) = take_first-Any _ db.machines old found in
      inl (
        old,
        row,
        sym (
              follow_keeps (λ j. j.id) db old k.tailnet.id (env.sanitize_hostname req.hostname)
                (λ x i. refl))
            ∙ ap (λ j. j.id) (sym e),
        sym (
              follow_keeps (λ j. j.authorized) db old k.tailnet.id
                (env.sanitize_hostname req.hostname) (λ x i. refl))
            ∙ ap (λ j. j.authorized) (sym e)
            ∙ h,
      )
  entrant_authorized db req k m (inr (ip4, ip6, found, e)) h =
      inr (ap (λ j. j.authorized) (sym e) ∙ h)

  -- A row that is authorized after a registration with an auth key was so before, or the
  -- key was loaded and either is pre-authorized or belongs to a tailnet that wants no authorization.
  pub authenticate-authorized :
      (db : Db) (keys : Keys) (req : RegisterRequest) (r : RegisterResponse) (db' : Db)
      (n : Machine)
      → authenticate_machine_with_auth_key tka env machine_key net db keys req ≡ replied r db'
      → Row n db'
      → n.authorized ≡ true
      → ((o : Machine) × Row o db × (o.id ≡ n.id) × (o.authorized ≡ true))
        ⊎ ((k : AuthKey) × (load_auth_key env.compare_hash env.now keys req.auth_key ≡ loaded k)
            × ((not k.tailnet.machine_authorization_enabled || k.pre_authorized) ≡ true))
  authenticate-authorized db keys req r db' n e at h =
      elim (authenticate-IsAnswer tka env machine_key net db keys req r db' e) [
        | inl (same, _) ↦ inl (n, subst (Row n) same at, refl, h)
        | inr (entry, _) ↦
            let k = entry.key in
            let m = completed db req k entry.machine in
            elim (Row-save_machine db m n (subst (Row n) (sym entry.saved) at)) [
              | inr (old, _) ↦ inl (n, old, refl, h)
              | inl is_m ↦
                  let id =
                    lock_keeps (λ j. j.id) tka db k.tailnet.id entry.machine (lock_request req)
                      (λ j s. refl) (λ j s. refl) in
                  let authorized =
                    lock_keeps (λ j. j.authorized) tka db k.tailnet.id entry.machine
                      (lock_request req) (λ j s. refl) (λ j s. refl) in
                  elim (entrant_authorized db req k entry.machine entry.entrant
                    (sym authorized ∙ ap (λ j. j.authorized) is_m ∙ h)) [
                      | inl (o, row, same, was) ↦
                          inl (o, row, same ∙ sym id ∙ ap (λ j. j.id) is_m, was)
                      | inr granted ↦ inr (k, entry.is_loaded, granted)
                    ]
            ]
      ]
