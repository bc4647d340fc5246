-- ===== src/Examples/ClientAddress.antt =====
-- A client behind one trusted proxy that sends a header of its own:
-- internal/audit/trusted_proxy.go. An address is written as one letter here.
use mathlib.Core.List.{reverse}
use deepseek_moderation_api.Prelude.{
  ℕ, ◌≡◌, refl, true, any, ◌++◌, List, [], ◌∷◌, Option, none, some, ◌⊎◌,
}
use deepseek_moderation_api.Text.{codes, split, join, utf8_length}
use deepseek_moderation_api.Money.{trim_space, trim_left_space, trim_right_space}
use deepseek_moderation_api.ClientAddress.{
  Addr, v4, Prefix, Net, unmap, trusted_address, contains_bits, read_addresses, walk, host_of,
  forwarded_client, request_client_ip,
}
use deepseek_moderation_api.ClientAddress.Nearest.{is_untrusted, IsNearest}
use deepseek_moderation_api.ClientAddress.Spoofing.{request_client_ip-own}

abbrev letter : List ℕ → Option Addr
letter [] = none
letter (c ∷ []) = some (v4 c)
letter (c ∷ d ∷ cs) = none

abbrev net : Net
net = record { parse_addr = letter; parse_prefix = λ text. none; split_host_port = λ text. none }

abbrev trusted : List Prefix
trusted = record { addr = v4 b'p'; bits = 32 } ∷ []

abbrev values : List (List ℕ)
values = codes "x,y" ∷ codes "u" ∷ []

counted_under_u : request_client_ip net trusted (codes "p") values ≡ some (v4 b'u')
unfolding request_client_ip host_of unmap trusted_address contains_bits read_addresses walk
    forwarded_client join split utf8_length trim_space trim_left_space trim_right_space
counted_under_u = refl

peer : net.parse_addr (host_of net (codes "p")) ≡ some (v4 b'p')
unfolding host_of
peer = refl

joined : join b',' values ≡ codes "x,y" ++ b',' ∷ codes "u"
unfolding join
joined = refl

from_proxy : read_addresses net (split b',' (codes "u")) ≡ some (v4 b'u' ∷ [])
unfolding read_addresses split unmap trim_space trim_left_space trim_right_space
from_proxy = refl

no_proxy : any (is_untrusted trusted) (v4 b'u' ∷ []) ≡ true
unfolding trusted_address contains_bits
no_proxy = refl

request_client_ip-own_example :
    (nearest : Addr) × IsNearest trusted (unmap (v4 b'p') ∷ reverse (v4 b'u' ∷ [])) nearest
    × ((request_client_ip net trusted (codes "p") values ≡ some (unmap (v4 b'p')))
        ⊎ (request_client_ip net trusted (codes "p") values ≡ some nearest))
request_client_ip-own_example =
    request_client_ip-own net trusted (codes "p") values (codes "x,y") (codes "u") (v4 b'p')
      (v4 b'u' ∷ []) peer joined from_proxy no_proxy
