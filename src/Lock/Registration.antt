-- ===== src/Lock/Registration.antt =====
-- internal/handlers/tka.go: the part of a registration that concerns the tailnet lock.
use ionskale.Prelude.{
  true, ◌≡◌, ◌⊎◌, arith, ℕ, String, Bool, false, not, Option, none, some, str_eq, is_empty,
  if◌then◌else◌,
}
use ionskale.Machine.{Bytes, Machine}
use ionskale.Lock.Db.{Db, get_lock, get_machine_by_machine_key}
use ionskale.Lock.Tka.{TkaLib}

-- The fields of tailcfg.RegisterRequest that these functions read. A zero network lock key is "".
pub record LockRequest : Type 0 where
  pub node_key : String
  pub nl_key : String
  pub node_key_signature : Bytes

module _ (tka : TkaLib) where
  open tka use {Authority, open_chonk, node_key_authorized}

  abbrev pub authorizes : Option Authority → String → Bytes → Bool
  authorizes none node_key signature = false
  authorizes (some authority) node_key signature = node_key_authorized authority node_key signature

  abbrev with_nl_key : Machine → String → Machine
  with_nl_key m nl_key = if str_eq nl_key "" then m else record m { nl_key = nl_key }

  unfoldable pub apply_tailnet_lock_registration : Db → ℕ → Machine → LockRequest → Machine
  unfolding get_lock
  apply_tailnet_lock_registration db t m req =
      let state = get_lock db t in
      let named = with_nl_key m req.nl_key in
      if is_empty req.node_key_signature
      then named
      else if not state.enabled
      then named
      else if authorizes (open_chonk state.chonk) req.node_key req.node_key_signature
      then record named { key_signature = req.node_key_signature }
      else named

  abbrev rotation_of : Db → Option Machine → Option Bytes
  rotation_of db none = none
  rotation_of db (some old) =
      if is_empty old.key_signature
      then none
      else if not (get_lock db old.tailnet_id).enabled
      then none
      else some old.key_signature

  unfoldable pub tailnet_lock_rotation_signature : Db → String → LockRequest → Option Bytes
  unfolding get_lock get_machine_by_machine_key
  tailnet_lock_rotation_signature db machine_key req =
      if is_empty req.node_key_signature
      then rotation_of db (get_machine_by_machine_key db machine_key)
      else none

  -- A registration leaves the signature of the machine as it was, or the lock is active and its
  -- authority accepts the signature that the machine then has for the node key that registers.
  pub apply_tailnet_lock_registration-authorizes :
      (db : Db) (t : ℕ) (m : Machine) (req : LockRequest)
      → ((apply_tailnet_lock_registration db t m req).key_signature ≡ m.key_signature)
        ⊎ (((get_lock db t).enabled ≡ true)
            × (authorizes
                  (open_chonk (get_lock db t).chonk)
                  req.node_key
                  (apply_tailnet_lock_registration db t m req).key_signature
                ≡ true))
  unfolding apply_tailnet_lock_registration
  apply_tailnet_lock_registration-authorizes db t m req = ground arith
