-- ===== src/Acl/Ports.antt =====
-- internal/domain/acl.go: the port ranges and protocols that an entry of the policy names.
use ionskale.Prelude.{String, List, [], ◌∷◌, Option, none, some, str_eq, if◌then◌else◌}
use ionskale.Prelude.Options.{◌>>=◌}
use ionskale.Prelude.Int.{ℤ, pos}
use ionskale.Strconv.{split, parse_uint16, atoi}
use ionskale.Policy.{PortRange}

-- tailcfg.PortRangeAny.
abbrev pub port_range_any : PortRange
port_range_any = record { first = 0; last = 65535 }

-- The branches on the number of parts that `strings.Split(p, "-")` gives.
abbrev range_of : List String → Option PortRange
range_of (one ∷ []) = do pi ← parse_uint16 one; some (record { first = pi; last = pi })
range_of (one ∷ two ∷ []) = do
  start ← parse_uint16 one
  last ← parse_uint16 two
  some (record { first = start; last = last })
range_of _ = none

abbrev ranges_of : List String → Option (List PortRange)
ranges_of [] = some []
ranges_of (p ∷ ps) = do
  range ← range_of (split b'-' p)
  ranges ← ranges_of ps
  some (range ∷ ranges)

-- `none` is an error.
unfoldable pub parse_port_ranges : String → Option (List PortRange)
unfolding split parse_uint16
parse_port_ranges s = if str_eq s "*" then some (port_range_any ∷ []) else ranges_of (split b',' s)

abbrev or_none : Option ℤ → List ℤ
or_none none = []
or_none (some n) = n ∷ []

unfoldable pub parse_protocol : String → List ℤ
unfolding atoi
parse_protocol protocol =
    if str_eq protocol ""
    then []
    else if str_eq protocol "igmp"
    then pos 2 ∷ []
    else if str_eq protocol "ipv4"
    then pos 4 ∷ []
    else if str_eq protocol "ip-in-ip"
    then pos 4 ∷ []
    else if str_eq protocol "tcp"
    then pos 6 ∷ []
    else if str_eq protocol "egp"
    then pos 8 ∷ []
    else if str_eq protocol "igp"
    then pos 9 ∷ []
    else if str_eq protocol "udp"
    then pos 17 ∷ []
    else if str_eq protocol "gre"
    then pos 47 ∷ []
    else if str_eq protocol "esp"
    then pos 50 ∷ []
    else if str_eq protocol "ah"
    then pos 51 ∷ []
    else if str_eq protocol "sctp"
    then pos 132 ∷ []
    else if str_eq protocol "icmp"
    then pos 1 ∷ pos 58 ∷ []
    else or_none (atoi protocol)
