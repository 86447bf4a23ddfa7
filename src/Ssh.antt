-- ===== src/Ssh.antt =====
-- internal/domain/acl_ssh_policy.go: the SSH policy that a machine receives.
pub mod Users
pub mod Principals
use ionskale.Prelude.{
  ℕ, String, List, [], ◌∷◌, ◌++◌, map, Bool, true, false, not, ◌&&◌, ◌||◌, Option, none, some,
  str_eq, starts_with, any, is_empty, if◌then◌else◌,
}
use Prim.Native.String.{◌++◌ as append_text}
use ionskale.Netip.{Addr, AddrText}
use ionskale.Policy.{AclSsh, AclPolicy}
use ionskale.StringSet.{StringSet, empty, add, items}
use ionskale.Machine.{Machine, User, has_tag, has_tags, has_user, ips}
use ionskale.Acl.{
  is_user_alias, machine_owned_by, is_group_member, auto_group_self, auto_group_member,
  auto_group_members,
}
use Users.{build_ssh_users}

-- tailcfg.SSHRecorderFailureAction, SSHAction and SSHRule; a principal is its node's address text.
pub record RecorderFailure : Type 0 where
  pub reject_session_with_message : String
  pub terminate_session_with_message : String

pub record SshAction : Type 0 where
  pub accept : Bool
  pub allow_agent_forwarding : Bool
  pub allow_local_port_forwarding : Bool
  pub hold_and_delegate : String
  pub recorders : List (Addr × ℕ)
  pub message : String
  pub on_recording_failure : Option RecorderFailure

pub record SshRule : Type 0 where
  pub principals : List String
  pub ssh_users : List (String × String)
  pub action : SshAction

safe_check_period : String → String
safe_check_period period = if str_eq period "" then "always" else period

module _ (net : AddrText) where
  unfoldable pub expand_ssh_src_alias : AclPolicy → Machine → String → Option User → List String
  unfolding is_user_alias machine_owned_by is_group_member has_tag has_tags has_user ips
  expand_ssh_src_alias a m alias (some dst_user) =
      if not (has_user m dst_user.name) || has_tags m
      then []
      else if str_eq alias auto_group_member || str_eq alias auto_group_members
      then ips net m
      else if is_user_alias net a alias && has_user m alias
      then ips net m
      else if starts_with alias "group:" && is_group_member a alias m
      then ips net m
      else []
  expand_ssh_src_alias a m alias none =
      if (str_eq alias auto_group_member || str_eq alias auto_group_members) && not (has_tags m)
      then ips net m
      else if machine_owned_by net a alias m
      then ips net m
      else if starts_with alias "group:" && not (has_tags m) && is_group_member a alias m
      then ips net m
      else if starts_with alias "tag:" && has_tag m alias
      then ips net m
      else []

  -- The closure `expandSrcAliases`: the loops that fill the set.
  unfoldable pub add_srcs : AclPolicy → String → Option User → StringSet → List Machine → StringSet
  unfolding expand_ssh_src_alias add
  add_srcs a alias u s [] = s
  add_srcs a alias u s (src ∷ srcs) =
      add_srcs a alias u (add s (expand_ssh_src_alias a src alias u)) srcs

  unfoldable pub add_aliases :
      AclPolicy → List Machine → String → Option User → StringSet → List String → StringSet
  unfolding add_srcs
  add_aliases a srcs action u s [] = s
  add_aliases a srcs action u s (alias ∷ aliases) =
      add_aliases a srcs action u
        (if starts_with alias "tag:" && str_eq action "check" then s else add_srcs a alias u s srcs)
        aliases

  unfoldable pub expand_src_aliases :
      AclPolicy → List Machine → List String → String → Option User → List String
  unfolding add_aliases items
  expand_src_aliases a srcs aliases action u = items (add_aliases a srcs action u empty aliases)

  -- The closure `expandRecorderAliases`.
  recorders_with_tag : String → List Machine → List (Addr × ℕ)
  unfolding has_tag
  recorders_with_tag alias [] = []
  recorders_with_tag alias (src ∷ srcs) =
      (if has_tag src alias then (src.ipv4, 80) ∷ [] else []) ++ recorders_with_tag alias srcs

  expand_recorder_aliases : List Machine → Machine → List String → List (Addr × ℕ)
  unfolding recorders_with_tag
  expand_recorder_aliases srcs dst [] = []
  expand_recorder_aliases srcs dst (alias ∷ aliases) =
      recorders_with_tag alias (srcs ++ dst ∷ []) ++ expand_recorder_aliases srcs dst aliases

  -- The users that the rule gives to the user's own machines, and to all others.
  unfoldable pub expand_ssh_dst_to_ssh_users :
      Machine → AclSsh → List (String × String) × List (String × String)
  unfolding build_ssh_users has_tag has_user
  expand_ssh_dst_to_ssh_users m rule =
      let users = build_ssh_users rule.users in
      (
        if any (λ d. has_user m d || str_eq d auto_group_self) rule.destination then users else [],
        if any (λ d. starts_with d "tag:" && has_tag m d) rule.destination then users else [],
      )

  base_action : AclSsh → SshAction
  unfolding safe_check_period
  base_action rule =
      if str_eq rule.action "check"
      then record {
        accept = false;
        allow_agent_forwarding = false;
        allow_local_port_forwarding = false;
        hold_and_delegate =
            append_text "https://unused/machine/ssh/action/$SRC_NODE_ID/to/$DST_NODE_ID/"
              (safe_check_period rule.check_period);
        recorders = [];
        message = "";
        on_recording_failure = none;
      }
      else record {
        accept = true;
        allow_agent_forwarding = true;
        allow_local_port_forwarding = true;
        hold_and_delegate = "";
        recorders = [];
        message = "";
        on_recording_failure = none;
      }

  recorder_failure : RecorderFailure
  recorder_failure = record {
    reject_session_with_message = "# Session rejected: failed to start session recording.";
    terminate_session_with_message = "# Session terminated: failed to record session.";
  }

  action_of : List Machine → Machine → AclSsh → SshAction
  unfolding base_action recorder_failure expand_recorder_aliases
  action_of srcs dst rule =
      let action = base_action rule in
      if is_empty rule.recorder then action else record action {
        recorders = expand_recorder_aliases srcs dst rule.recorder;
        message = "# This session is being recorded.\n";
        on_recording_failure = if rule.enforce_recorder then some recorder_failure else none;
      }

  abbrev rule_for : List (String × String) → List String → SshAction → List SshRule
  rule_for users principals action =
      if is_empty users
      then []
      else if is_empty principals
      then []
      else record { principals = principals; ssh_users = users; action = action } ∷ []

  unfoldable pub rules_of : AclPolicy → List Machine → Machine → AclSsh → List SshRule
  unfolding expand_ssh_dst_to_ssh_users expand_src_aliases action_of
  rules_of a srcs dst rule =
      let (self_users, other_users) = expand_ssh_dst_to_ssh_users dst rule in
      let action = action_of srcs dst rule in
      if not (str_eq rule.action "accept") && not (str_eq rule.action "check")
      then []
      else rule_for self_users (expand_src_aliases a srcs rule.source rule.action (some dst.user))
          action
        ++ rule_for other_users (expand_src_aliases a srcs rule.source rule.action none) action

  unfoldable pub ssh_rules_of : AclPolicy → List Machine → Machine → List AclSsh → List SshRule
  unfolding rules_of
  ssh_rules_of a srcs dst [] = []
  ssh_rules_of a srcs dst (rule ∷ rules) = rules_of a srcs dst rule ++ ssh_rules_of a srcs dst rules

  unfoldable pub build_ssh_policy : AclPolicy → List Machine → Machine → List SshRule
  unfolding ssh_rules_of
  build_ssh_policy a srcs dst = ssh_rules_of a srcs dst a.ssh
