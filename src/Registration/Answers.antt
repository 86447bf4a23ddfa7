-- ===== src/Registration/Answers.antt =====
-- internal/handlers/registration.go: the ways in which a registration with an auth key is answered.
use ionskale.Prelude.{
  String, List, [], ◌∷◌, ◌++◌, true, false, Option, none, some, ◌≡◌, ◌⊎◌, inl, inr, refl, ap, sym,
}
use ionskale.Netip.{Addr, Prefix, AddrText}
use ionskale.Machine.{Machine}
use ionskale.Acl.{check_tag_owners, find_auto_approved_ips}
use ionskale.Address.{Selection, selected, failed, searching, select_ip}
use ionskale.Identity.{Keys, AuthKey, Loaded, absent, loaded, crashed, load_auth_key}
use ionskale.Lock.Tka.{TkaLib}
use ionskale.Lock.Db.{Db, save_machine}
use ionskale.Lock.Registration.{apply_tailnet_lock_registration}
use ionskale.Store.{get_machine_by_key_and_user}
use ionskale.Registration.{
  RegisterRequest, lock_request, RegisterResponse, Env, replied, fails, hangs,
}
use ionskale.Registration.Handlers.{
  sanitize_tags, check_ip, new_machine, renewed_machine, enter, enter_new, enter_machine, admit,
  with_auth_key, authenticate_machine_with_auth_key,
}

pub replied_inj :
    {A : Type 0} {r s : RegisterResponse} {a b : A} → replied r a ≡ replied s b → (r ≡ s) × (a ≡ b)
replied_inj h = (cc, cc)

module _ (tka : TkaLib) (env : Env) (machine_key : String) (net : AddrText) where
  -- All tags of a registration, and the routes that are approved for them.
  abbrev pub all_tags : RegisterRequest → AuthKey → List String
  all_tags req k = k.tags ++ sanitize_tags req.request_tags

  abbrev pub approved : RegisterRequest → AuthKey → List Prefix
  approved req k =
      find_auto_approved_ips net k.tailnet.acl_policy req.routable_ips (all_tags req k) k.user

  -- The machine that enters is one of before, renewed, or a new one with a free address.
  abbrev pub IsEntrant : Db → RegisterRequest → AuthKey → Machine → Type 0
  IsEntrant db req k m =
      ((old : Machine) × (get_machine_by_key_and_user db machine_key k.user.id ≡ some old)
        × (m
            ≡ renewed_machine tka env machine_key net db req k (all_tags req k) (approved req k)
                old))
      ⊎ ((ip4 ip6 : Addr) × (select_ip env.range (some (check_ip db)) env.random_number
            ≡ selected (ip4, ip6))
          × (m
              ≡ new_machine tka env machine_key net db req k (all_tags req k) (approved req k) ip4
                  ip6))

  -- A machine entered by a key that was loaded, with tags that its user owns.
  pub record Entered (db : Db) (keys : Keys) (req : RegisterRequest) (db' : Db) : Type 0 where
    pub key : AuthKey
    pub is_loaded : load_auth_key env.compare_hash env.now keys req.auth_key ≡ loaded key
    pub owned : check_tag_owners key.tailnet.acl_policy req.request_tags key.user ≡ []
    pub machine : Machine
    pub entrant : IsEntrant db req key machine
    pub saved :
        save_machine db
          (apply_tailnet_lock_registration tka db key.tailnet.id machine (lock_request req))
        ≡ db'

  -- A refused registration leaves the database, and an accepted one enters a machine.
  abbrev pub IsAnswer : Db → Keys → RegisterRequest → RegisterResponse → Db → Type 0
  IsAnswer db keys req r db' =
      ((db' ≡ db) × (r.machine_authorized ≡ false))
      ⊎ (Entered db keys req db' × (r.machine_authorized ≡ true))

  entered :
      (db : Db) (keys : Keys) (req : RegisterRequest) (k : AuthKey) (m : Machine)
      (r : RegisterResponse) (db' : Db)
      → load_auth_key env.compare_hash env.now keys req.auth_key ≡ loaded k
      → check_tag_owners k.tailnet.acl_policy req.request_tags k.user ≡ []
      → IsEntrant db req k m
      → enter tka env machine_key net db req k m ≡ replied r db'
      → IsAnswer db keys req r db'
  unfolding enter
  entered db keys req k m r db' e owned entrant h =
      let (reply, left) = replied_inj h in
      inr (
        record {
          key = k;
          is_loaded = e;
          owned = owned;
          machine = m;
          entrant = entrant;
          saved = left;
        },
        ap (λ x. x.machine_authorized) (sym reply),
      )

  entered_new :
      (db : Db) (keys : Keys) (req : RegisterRequest) (k : AuthKey) (s : Selection (Addr × Addr))
      (r : RegisterResponse) (db' : Db)
      → load_auth_key env.compare_hash env.now keys req.auth_key ≡ loaded k
      → check_tag_owners k.tailnet.acl_policy req.request_tags k.user ≡ []
      → select_ip env.range (some (check_ip db)) env.random_number ≡ s
      → enter_new tka env machine_key net db req k (all_tags req k) (approved req k) s
        ≡ replied r db'
      → IsAnswer db keys req r db'
  entered_new db keys req k (selected (ip4, ip6)) r db' e owned f h =
      entered db keys req k _ r db' e owned (inr (ip4, ip6, f, refl)) h
  entered_new db keys req k failed r db' e owned f h =
      absurd (let z : fails ≡ replied r db' = h in cc)
  entered_new db keys req k searching r db' e owned f h =
      absurd (let z : hangs ≡ replied r db' = h in cc)

  entered_machine :
      (db : Db) (keys : Keys) (req : RegisterRequest) (k : AuthKey) (o : Option Machine)
      (r : RegisterResponse) (db' : Db)
      → load_auth_key env.compare_hash env.now keys req.auth_key ≡ loaded k
      → check_tag_owners k.tailnet.acl_policy req.request_tags k.user ≡ []
      → get_machine_by_key_and_user db machine_key k.user.id ≡ o
      → enter_machine tka env machine_key net db req k (all_tags req k) (approved req k) o
        ≡ replied r db'
      → IsAnswer db keys req r db'
  entered_machine db keys req k none r db' e owned f h =
      entered_new db keys req k (select_ip env.range (some (check_ip db)) env.random_number) r db' e
        owned refl h
  entered_machine db keys req k (some m) r db' e owned f h =
      entered db keys req k _ r db' e owned (inl (m, f, refl)) h

  admitted :
      (db : Db) (keys : Keys) (req : RegisterRequest) (k : AuthKey) (tags : List String)
      (r : RegisterResponse) (db' : Db)
      → load_auth_key env.compare_hash env.now keys req.auth_key ≡ loaded k
      → check_tag_owners k.tailnet.acl_policy req.request_tags k.user ≡ tags
      → admit tka env machine_key net db req k tags ≡ replied r db'
      → IsAnswer db keys req r db'
  unfolding admit
  admitted db keys req k [] r db' e owned h =
      entered_machine db keys req k (get_machine_by_key_and_user db machine_key k.user.id) r db' e
        owned refl h
  admitted db keys req k (tag ∷ tags) r db' e refused h =
      let (reply, left) = replied_inj h in
      inl (sym left, ap (λ x. x.machine_authorized) (sym reply))

  with_auth_key-IsAnswer :
      (db : Db) (keys : Keys) (req : RegisterRequest) (l : Loaded AuthKey) (r : RegisterResponse)
      (db' : Db)
      → load_auth_key env.compare_hash env.now keys req.auth_key ≡ l
      → with_auth_key tka env machine_key net db req l ≡ replied r db'
      → IsAnswer db keys req r db'
  unfolding with_auth_key
  with_auth_key-IsAnswer db keys req absent r db' e h =
      let (reply, left) = replied_inj h in
      inl (sym left, ap (λ x. x.machine_authorized) (sym reply))
  with_auth_key-IsAnswer db keys req crashed r db' e h =
      absurd (let z : fails ≡ replied r db' = h in cc)
  with_auth_key-IsAnswer db keys req (loaded k) r db' e h =
      admitted db keys req k (check_tag_owners k.tailnet.acl_policy req.request_tags k.user) r db' e
        refl h

  pub authenticate-IsAnswer :
      (db : Db) (keys : Keys) (req : RegisterRequest) (r : RegisterResponse) (db' : Db)
      → authenticate_machine_with_auth_key tka env machine_key net db keys req ≡ replied r db'
      → IsAnswer db keys req r db'
  unfolding authenticate_machine_with_auth_key
  authenticate-IsAnswer db keys req r db' h =
      with_auth_key-IsAnswer db keys req (load_auth_key env.compare_hash env.now keys req.auth_key)
        r db' refl h
