-- ===== src/Netip.antt =====
-- The part of Go's net/netip that internal/domain uses: addresses, prefixes, and the tests between
-- them. An address is its family and its bits as a number; an IPv6 zone is kept as text.
-- How an address is written as text is a parameter, `AddrText`.
pub mod Laws
use ionskale.Prelude.{
  ℕ, ◌-◌, ◌*◌, ◌/◌, ◌^◌, ◌≤◌, ◌<◌, String, Bool, true, false, not, ◌&&◌, Option, ◌==◌, leb, str_eq,
  if◌then◌else◌,
}

pub record Addr : Type 0 where
  pub is4 : Bool
  pub value : ℕ
  pub zone : String

pub record Prefix : Type 0 where
  pub addr : Addr
  pub bits : ℕ

pub record AddrText : Type 0 where
  pub parse_addr : String → Option Addr
  pub parse_prefix : String → Option Prefix
  pub addr_text : Addr → String
  pub prefix_text : Prefix → String

-- `Addr.BitLen`.
abbrev pub bit_len : Addr → ℕ
bit_len a = if a.is4 then 32 else 128

abbrev pub same_bool : Bool → Bool → Bool
same_bool true b = b
same_bool false b = not b

-- `a.Compare(b) == 0`.
unfoldable pub same_addr : Addr → Addr → Bool
same_addr a b = same_bool a.is4 b.is4 && a.value == b.value && str_eq a.zone b.zone

-- `p == q`, with which the prefixes are the keys of a map.
abbrev pub same_prefix : Prefix → Prefix → Bool
same_prefix p q = same_addr p.addr q.addr && p.bits == q.bits

-- The bits of an address that a prefix of `n` bits fixes, as a number.
abbrev pub leading : Addr → ℕ → ℕ
leading a n = a.value / 2 ^ (bit_len a - n)

-- `Prefix.Contains`: of the same family, without a zone, and with the same leading bits.
unfoldable pub contains_addr : Prefix → Addr → Bool
contains_addr p a =
    str_eq a.zone "" && same_bool p.addr.is4 a.is4 && leading p.addr p.bits == leading a p.bits

-- `Prefix.Overlaps`: the two agree on the bits that both fix.
unfoldable pub overlaps : Prefix → Prefix → Bool
overlaps p o =
    let n = if leb p.bits o.bits then p.bits else o.bits in
    same_bool p.addr.is4 o.addr.is4 && leading p.addr n == leading o.addr n

-- `Prefix.Masked`: the bits that the prefix does not fix are cleared.
unfoldable pub masked : Prefix → Prefix
masked p = record p {
  addr = record {
    is4 = p.addr.is4;
    value = leading p.addr p.bits * 2 ^ (bit_len p.addr - p.bits);
    zone = "";
  };
}

-- What holds of the prefixes that `ParsePrefix` and JSON decoding give.
pub record IsPrefix (p : Prefix) : Type 0 where
  pub bits_in_range : p.bits ≤ bit_len p.addr
  pub value_in_range : p.addr.value < 2 ^ bit_len p.addr
