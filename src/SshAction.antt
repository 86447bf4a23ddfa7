-- ===== src/SshAction.antt =====
-- internal/handlers/ssh_action.go: the check of a user before an SSH session. `time.ParseDuration` is
-- an argument; a duration may be negative.
use ionskale.Prelude.{
  ℕ, suc, ◌+◌, String, List, [], ◌∷◌, Bool, false, not, ◌&&◌, Option, none, some, str_eq, ltb,
  if◌then◌else◌,
}
use ionskale.Prelude.Int.{ℤ, pos, negsuc}
use ionskale.Machine.{Machine, User}
use ionskale.Acl.{is_some}
use ionskale.Store.{get_machine}
use ionskale.Tables.{
  Tables, SshActionRequest, get_account, get_ssh_action_request, save_ssh_action_request,
  delete_ssh_action_request, joined_user,
}

-- The action that is sent: accept, reject, or wait for the request of a key; or an error, a panic, or
-- nothing, where the connection is closed.
pub data Action : Type 0 where
  accepts : Action
  rejects : Action
  holds : String → Action
  error : Action
  crashed : Action
  nothing : Action

-- sshActionRequestData.
pub record CheckInput : Type 0 where
  pub src_machine_id : ℕ
  pub dst_machine_id : ℕ
  pub check_period : String

-- `now - last < period`.
abbrev pub is_within : ℕ → ℕ → ℤ → Bool
is_within now last (pos period) = ltb now (last + period)
is_within now last (negsuc period) = ltb (now + suc period) last

abbrev pub seen_within : ℕ → Option ℕ → ℤ → Bool
seen_within now none period = false
seen_within now (some last) period = is_within now last period

abbrev has_account : Tables → Option ℕ → Bool
has_account w none = false
has_account w (some id) = is_some (get_account w id)

-- `machine.User.Account != nil` with a last authentication in the period.
abbrev is_fresh : Tables → ℕ → ℤ → Option User → Bool
is_fresh w now period none = false
is_fresh w now period (some u) =
    has_account w u.account_id && seen_within now u.last_authenticated period

unfoldable pub was_checked : Tables → ℕ → ℤ → Machine → Bool
unfolding joined_user get_account
was_checked w now period m = is_fresh w now period (joined_user w.store m)

module _ (parse_duration : String → Option ℤ) (now : ℕ) (random_key : String) where
  abbrev hold : Tables → CheckInput → Action × Tables
  hold w input =
      let r : SshActionRequest = record {
        key = random_key;
        action = "";
        src_machine_id = input.src_machine_id;
        dst_machine_id = input.dst_machine_id;
      } in
      (holds random_key, save_ssh_action_request w r)

  abbrev pub of_machine : Tables → CheckInput → ℤ → Option Machine → Action × Tables
  of_machine w input period none = (crashed, w)
  of_machine w input period (some m) =
      if was_checked w now period m then (accepts, w) else hold w input

  abbrev pub of_period : Tables → CheckInput → Option ℤ → Action × Tables
  of_period w input none = hold w input
  of_period w input (some period) =
      of_machine w input period (get_machine w.db input.src_machine_id)

  unfoldable pub start : Tables → CheckInput → Action × Tables
  unfolding get_machine was_checked save_ssh_action_request
  start w input =
      if not (str_eq input.check_period "") && not (str_eq input.check_period "always")
      then of_period w input (parse_duration input.check_period)
      else hold w input

-- One tick: an answer, or none to wait on.
abbrev pub of_request : Tables → String → Option SshActionRequest → Option (Action × Tables)
of_request w key none = some (rejects, w)
of_request w key (some r) =
    if str_eq r.action "accept"
    then some (accepts, delete_ssh_action_request w key)
    else if str_eq r.action "reject"
    then some (rejects, delete_ssh_action_request w key)
    else none

unfoldable pub check_tick : Tables → String → Option (Action × Tables)
unfolding get_ssh_action_request delete_ssh_action_request
check_tick w key = of_request w key (get_ssh_action_request w key)

abbrev or_next : Option (Action × Tables) → Action × Option Tables → Action × Option Tables
or_next none next = next
or_next (some (action, w)) next = (action, some w)

-- The tables at each tick until the connection is closed, and those that the answer leaves.
unfoldable pub check_auth : List Tables → String → Action × Option Tables
unfolding check_tick
check_auth [] key = (nothing, none)
check_auth (w ∷ ws) key = let rest = check_auth ws key in or_next (check_tick w key) rest
