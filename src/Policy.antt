-- ===== src/Policy.antt =====
-- The records of a tailnet's access policy: pkg/client/ionscale/types.go, with the records of
-- tailscale.com/tailcfg that the filter rules are made of. A map with string keys is the list of
-- its entries.
use ionskale.Prelude.{ℕ, String, List, Bool, Option}
use ionskale.Prelude.Int.{ℤ}
use ionskale.Netip.{Prefix}

-- tailcfg.PortRange, ProtoPortRange, NetPortRange, PeerCapMap, CapGrant and FilterRule.
pub record PortRange : Type 0 where
  pub first : ℕ
  pub last : ℕ

pub record ProtoPortRange : Type 0 where
  pub proto : ℤ
  pub ports : PortRange

pub record NetPortRange : Type 0 where
  pub ip : String
  pub ports : PortRange

abbrev pub PeerCapMap : Type 0
PeerCapMap = List (String × List String)

pub record CapGrant : Type 0 where
  pub dsts : List Prefix
  pub cap_map : PeerCapMap

pub record FilterRule : Type 0 where
  pub src_ips : List String
  pub dst_ports : List NetPortRange
  pub ip_proto : List ℤ
  pub cap_grant : List CapGrant

pub record AclAutoApprovers : Type 0 where
  pub routes : List (String × List String)
  pub exit_node : List String

pub record AclEntry : Type 0 where
  pub action : String
  pub protocol : String
  pub source : List String
  pub destination : List String

pub record AclSsh : Type 0 where
  pub action : String
  pub source : List String
  pub destination : List String
  pub users : List String
  pub check_period : String
  pub recorder : List String
  pub enforce_recorder : Bool

pub record AclNodeAttrGrant : Type 0 where
  pub target : List String
  pub attr : List String

pub record AclGrant : Type 0 where
  pub source : List String
  pub destination : List String
  pub ip : List ProtoPortRange
  pub app : PeerCapMap

pub record AclPolicy : Type 0 where
  pub groups : List (String × List String)
  pub hosts : List (String × String)
  pub acls : List AclEntry
  pub tag_owners : List (String × List String)
  pub auto_approvers : Option AclAutoApprovers
  pub ssh : List AclSsh
  pub node_attrs : List AclNodeAttrGrant
  pub grants : List AclGrant
