-- ===== src/AllowIps.antt =====
-- internal/domain/machine.go: AllowIPsSet, the set in which the enabled routes of a machine are
-- edited. A Go map of type map[netip.Prefix]bool is the list of its keys; Go gives them in no fixed
-- order, and what is said of `items` is only which prefixes are in it.
pub mod Members
use ionskale.Prelude.{
  ◌==◌, List, [], ◌∷◌, ◌++◌, Bool, true, false, not, ◌&&◌, any, keep, if◌then◌else◌,
}
use ionskale.Netip.{Prefix, same_prefix, same_addr}

unfoldable pub has_prefix : List Prefix → Prefix → Bool
has_prefix ps p = any (λ q. same_prefix q p) ps

pub record AllowIpsSet : Type 0 where
  pub keys : List Prefix

-- `s.items[v] = true`.
abbrev pub put : List Prefix → Prefix → List Prefix
put keys v = if has_prefix keys v then keys else keys ++ v ∷ []

abbrev pub put_all : List Prefix → List Prefix → List Prefix
put_all keys [] = keys
put_all keys (v ∷ vs) = put_all (put keys v) vs

-- `delete(s.items, v)`.
abbrev pub drop : List Prefix → Prefix → List Prefix
drop keys v = keep (λ q. not (same_prefix q v)) keys

abbrev pub drop_all : List Prefix → List Prefix → List Prefix
drop_all keys [] = keys
drop_all keys (v ∷ vs) = drop_all (drop keys v) vs

unfoldable pub add_prefixes : AllowIpsSet → List Prefix → AllowIpsSet
add_prefixes s t = record { keys = put_all s.keys t }

unfoldable pub new_allow_ips_set : List Prefix → AllowIpsSet
unfolding add_prefixes
new_allow_ips_set t = add_prefixes (record { keys = [] }) t

unfoldable pub remove_prefixes : AllowIpsSet → List Prefix → AllowIpsSet
remove_prefixes s t = record { keys = drop_all s.keys t }

-- `Items`.
unfoldable pub prefixes : AllowIpsSet → List Prefix
prefixes s = s.keys
