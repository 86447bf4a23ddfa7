-- ===== src/Examples/Locks.antt =====
-- The tailnet lock of the small tailnet, with a reading of keys and signatures as plain numbers.
use ionskale.Prelude.{
  ℕ, String, List, [], ◌∷◌, Bool, true, false, not, ◌≡◌, refl, ◌⊎◌, Option, none, some, str_eq,
  if◌then◌else◌, is_empty, ◌==◌,
}
use ionskale.Machine.{Bytes}
use ionskale.Lock.Chonk.{Chonk, TkaAum}
use ionskale.Lock.Db.{LockState, Db, no_lock, put_lock, get_lock}
use ionskale.Lock.Tka.{TkaLib, ◌>>=◌}
use ionskale.Lock.Handlers.{caller, init_finish, disable}
use ionskale.Lock.Registration.{
  LockRequest, authorizes, apply_tailnet_lock_registration,
  apply_tailnet_lock_registration-authorizes,
}
use ionskale.Lock.Requests.{begins, finishes, disables, submits, Request, run}
use ionskale.Lock.Invariant.{AllConsistent, no_lock-IsConsistent, run-AllConsistent}
use ionskale.Lock.Init.{Locked, init_finish-Locked}
use ionskale.Lock.Disable.{Released, Refused, disable-Released}
use ionskale.Examples.Data.{laptop, phone}

abbrev stored : Bytes → Chonk
stored genesis = record {
  rows = record { hash = "h"; prev_hash = ""; content = genesis } ∷ [];
  last_active_ancestor = "h";
}

abbrev set_up : Chonk → Bytes → Option (Bytes × Chonk)
set_up chonk genesis = if is_empty chonk.rows then some (genesis, stored genesis) else none

abbrev first_content : List TkaAum → Option Bytes
first_content [] = none
first_content (r ∷ rs) = some r.content

abbrev is_one : Bytes → Bool
is_one [] = false
is_one (b ∷ bs) = b == 1

abbrev pub tka : TkaLib
tka = record {
  Aum = Bytes;
  Authority = Bytes;
  parse_aum = λ b. if is_empty b then none else some b;
  bootstrap = set_up;
  open_chonk = λ c. first_content c.rows;
  inform = λ a c us. some (a, c);
  head = λ a. "h";
  node_key_authorized = λ a key sig. is_one sig;
  valid_disablement = λ a secret. is_one secret;
  is_node_key = λ k. not (str_eq k "");
  rotation_key = λ k. 5 ∷ [];
  signed_key = λ sig. some "phone";
  signing_key_id = λ sig. some sig;
  sync_offer = λ a c. some ("h", []);
  parse_offer = λ h ancestors. true;
  missing_aums = λ a c h ancestors. some [];
}

abbrev before : Db
before = record { machines = laptop ∷ phone ∷ []; locks = λ t. no_lock; notified = [] }

abbrev history : List (String × Request)
history =
    ("laptop", begins "laptop" (7 ∷ []))
    ∷ ("laptop", finishes "laptop" ((1, 1 ∷ []) ∷ (3, 1 ∷ 2 ∷ []) ∷ []) [])
    ∷ ("laptop", submits "laptop" (1 ∷ 4 ∷ []))
    ∷ ("phone", disables "phone" (1 ∷ []))
    ∷ []

run-AllConsistent_example : AllConsistent (run tka before history)
run-AllConsistent_example = run-AllConsistent tka before history (λ t. no_lock-IsConsistent)

abbrev pending : Db
pending = record before {
  locks = put_lock before.locks 1 (record no_lock { pending_genesis = 7 ∷ [] });
}

abbrev active : LockState
active = record no_lock { enabled = true; head = "h"; chonk = stored (7 ∷ []) }

abbrev signatures : List (ℕ × Bytes)
signatures = (1, 1 ∷ []) ∷ (3, 1 ∷ 2 ∷ []) ∷ []

abbrev signed : Db
signed = record {
  machines =
      record laptop { key_signature = 1 ∷ [] } ∷ record phone { key_signature = 1 ∷ 2 ∷ [] } ∷ [];
  locks = λ u.
      if 1 == u
      then active
      else put_lock (put_lock pending.locks 1 no_lock) 1
          (record no_lock { chonk = stored (7 ∷ []) }) u;
  notified = 1 ∷ [];
}

init_finish-Locked_example : Locked tka "laptop" "laptop" pending signed
unfolding init_finish ◌>>=◌ get_lock
init_finish-Locked_example =
    init_finish-Locked tka "laptop" pending "laptop" signatures [] signed refl

abbrev stopped : Db
stopped = record signed {
  locks =
      put_lock signed.locks 1
        (record active { enabled = false; disabled = true; disablement_secret = 1 ∷ [] });
  notified = 1 ∷ 1 ∷ [];
}

-- The phone begins anew, and the laptop tries to go on with the old lock.
abbrev later : List (String × Request)
later =
    ("phone", begins "phone" (7 ∷ []))
    ∷ ("laptop", submits "laptop" (1 ∷ 4 ∷ []))
    ∷ ("laptop", disables "laptop" (2 ∷ []))
    ∷ []

disable-Released_example :
    Released tka "phone" "phone" (1 ∷ []) (run tka stopped later)
    × Refused tka "phone" "phone" (run tka stopped later)
unfolding disable ◌>>=◌ get_lock caller run
disable-Released_example =
    disable-Released tka "laptop" "laptop" signed (record laptop { key_signature = 1 ∷ [] })
      (1 ∷ []) stopped later "phone" "phone" (record phone { key_signature = 1 ∷ 2 ∷ [] }) refl refl
      (tt, (tt, (tt, tt))) refl refl

abbrev renewal : LockRequest
renewal = record { node_key = "phone2"; nl_key = ""; node_key_signature = 1 ∷ 8 ∷ [] }

apply_tailnet_lock_registration-authorizes_example :
    ((apply_tailnet_lock_registration tka signed 1 phone renewal).key_signature
      ≡ phone.key_signature)
    ⊎ (((get_lock signed 1).enabled ≡ true)
        × (authorizes tka
              (tka.open_chonk (get_lock signed 1).chonk)
              "phone2"
              (apply_tailnet_lock_registration tka signed 1 phone renewal).key_signature
            ≡ true))
apply_tailnet_lock_registration-authorizes_example =
    apply_tailnet_lock_registration-authorizes tka signed 1 phone renewal
