-- ===== src/ClientAddress.antt =====
-- The address that a request is counted under: internal/audit/trusted_proxy.go. An address of net/netip
-- is its bits as a number; reading an address, a prefix or the port of a remote address is net's and
-- comes as an argument (Net).
pub mod Nearest
pub mod Spoofing
use mathlib.Core.List.{reverse}
use deepseek_moderation_api.Prelude.{
  ℕ, ◌+◌, ◌-◌, ◌*◌, ◌/◌, ◌%◌, ◌^◌, Bool, true, false, not, ◌&&◌, ◌||◌, List, [], ◌∷◌, Option, none,
  some, ltb, leb, ◌==◌, if◌then◌else◌, length, any, map, String, str_eq,
}
use deepseek_moderation_api.Text.{split, join, utf8_length}
use deepseek_moderation_api.Money.{trim_space}

pub data Addr : Type 0 where
  v4 : (bits : ℕ) → Addr
  v6 : (bits : ℕ) → (zone : String) → Addr

-- `PrefixFrom` keeps no zone.
pub record Prefix : Type 0 where
  pub addr : Addr
  pub bits : ℕ

abbrev pub zone : Addr → String
zone (v4 b) = ""
zone (v6 b z) = z

abbrev pub bit_len : Addr → ℕ
bit_len (v4 b) = 32
bit_len (v6 b z) = 128

unfoldable pub is_4_in_6 : Addr → Bool
is_4_in_6 (v4 b) = false
is_4_in_6 (v6 b z) = b / 2 ^ 32 == 0xffff

unfoldable pub unmap : Addr → Addr
unmap (v4 b) = v4 b
unmap (v6 b z) = if b / 2 ^ 32 == 0xffff then v4 (b % 2 ^ 32) else v6 b z

-- The bits after the first `kept` of `width` are 0.
abbrev pub high_bits : (width kept b : ℕ) → ℕ
high_bits width kept b = b / 2 ^ (width - kept)

abbrev pub mask : (kept : ℕ) → Addr → Addr
mask kept (v4 b) = v4 (high_bits 32 kept b * 2 ^ (32 - kept))
mask kept (v6 b z) = v6 (high_bits 128 kept b * 2 ^ (128 - kept)) ""

unfoldable pub masked : Prefix → Prefix
masked p = record p { addr = mask p.bits p.addr }

unfoldable pub contains_bits : (kept : ℕ) → Addr → Addr → Bool
contains_bits kept (v4 a) (v4 b) = high_bits 32 kept a == high_bits 32 kept b
contains_bits kept (v6 a y) (v6 b z) = str_eq z "" && high_bits 128 kept a == high_bits 128 kept b
contains_bits kept (v4 a) (v6 b z) = false
contains_bits kept (v6 a y) (v4 b) = false

abbrev pub prefix_contains : Prefix → Addr → Bool
prefix_contains p addr = contains_bits p.bits p.addr addr

pub record Net : Type 0 where
  pub parse_addr : List ℕ → Option Addr
  pub parse_prefix : List ℕ → Option Prefix
  pub split_host_port : List ℕ → Option (List ℕ)

abbrev pub host_prefix : Addr → Prefix
host_prefix addr = record { addr = unmap addr; bits = bit_len (unmap addr) }

-- One entry of AUDIT_TRUSTED_PROXIES: a prefix, or an address without a zone.
unfoldable pub read_proxy : Net → List ℕ → Option Prefix
read_proxy net value = elim (net.parse_prefix value) [
  | some p ↦ some p
  | none ↦ elim (net.parse_addr value) [
    | none ↦ none
    | some addr ↦ if str_eq (zone addr) "" then some (host_prefix addr) else none
  ]
]

-- No entry may trust all addresses, or all of IPv4 in the form of IPv6.
unfoldable pub narrow : Prefix → Option Prefix
narrow p =
    if p.bits == 0
    then none
    else if is_4_in_6 p.addr && leb 96 p.bits
    then if p.bits == 96
      then none
      else some (masked (record { addr = unmap p.addr; bits = p.bits - 96 }))
    else some (masked p)

abbrev pub narrow_some : Option Prefix → Option Prefix
narrow_some none = none
narrow_some (some p) = narrow p

abbrev pub add_some : Option Prefix → Option (List Prefix) → Option (List Prefix)
add_some none ps = none
add_some (some p) none = none
add_some (some p) (some ps) = some (p ∷ ps)

unfoldable pub read_proxies : Net → List (List ℕ) → Option (List Prefix)
unfolding read_proxy narrow
read_proxies net [] = some []
read_proxies net (raw ∷ values) =
    add_some (narrow_some (read_proxy net (trim_space raw))) (read_proxies net values)

-- `parseTrustedProxies`; none is an error.
unfoldable pub parse_trusted_proxies : Net → List (List ℕ) → Option (List Prefix)
unfolding read_proxies
parse_trusted_proxies net values = if ltb 64 (length values) then none else read_proxies net values

unfoldable pub trusted_address : Addr → List Prefix → Bool
trusted_address addr trusted = any (λ p. prefix_contains p addr) trusted

abbrev pub add_addr : Addr → Option (List Addr) → Option (List Addr)
add_addr a none = none
add_addr a (some addrs) = some (unmap a ∷ addrs)

abbrev pub add_read : Option Addr → Option (List Addr) → Option (List Addr)
add_read none addrs = none
add_read (some a) addrs = if str_eq (zone a) "" then add_addr a addrs else none

-- The addresses of the header, or none if one of them is malformed.
unfoldable pub read_addresses : Net → List (List ℕ) → Option (List Addr)
read_addresses net [] = some []
read_addresses net (raw ∷ parts) =
    add_read (net.parse_addr (trim_space raw)) (read_addresses net parts)

-- The walk from the right; `hops` are the addresses from the right to the left.
unfoldable pub walk : List Prefix → (client : Addr) → (hops : List Addr) → Addr
walk trusted client [] = client
walk trusted client (hop ∷ hops) =
    let further = walk trusted hop hops in
    if trusted_address client trusted then further else client

abbrev pub walk_from : List Prefix → Addr → Option (List Addr) → Addr
walk_from trusted peer none = peer
walk_from trusted peer (some addresses) = walk trusted peer (reverse addresses)

unfoldable pub forwarded_client : Net → List Prefix → (peer : Addr) → (forwarded : List ℕ) → Addr
forwarded_client net trusted peer forwarded =
    if not (trusted_address peer trusted)
    then peer
    else if length forwarded == 0 || ltb 4096 (utf8_length forwarded)
    then peer
    else if ltb 32 (length (split b',' forwarded))
    then peer
    else walk_from trusted peer (read_addresses net (split b',' forwarded))

unfoldable pub host_of : Net → (remote : List ℕ) → List ℕ
host_of net remote = elim (net.split_host_port remote) [ none ↦ remote | some host ↦ host ]

-- `requestClientIP`; none is the text "unknown". `values` are those of X-Forwarded-For.
unfoldable pub request_client_ip :
    Net → List Prefix → (remote : List ℕ) → (values : List (List ℕ)) → Option Addr
unfolding forwarded_client host_of
request_client_ip net trusted remote values = elim (net.parse_addr (host_of net remote)) [
  | none ↦ none
  | some addr ↦ some (forwarded_client net trusted (unmap addr) (join b',' values))
]
