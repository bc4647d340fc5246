-- ===== src/ClientAddress/Spoofing.antt =====
-- What a client cannot say of its own address (internal/audit/trusted_proxy.go).
use mathlib.Core.List.{reverse, reverse-append}
use deepseek_moderation_api.Prelude.{
  ℕ, ◌≡◌, refl, true, not, ◌||◌, List, ◌∷◌, ◌++◌, Option, none, some, arith, any, Bool-cases, inl,
  inr, ◌⊎◌, ◌==◌, ltb, length,
}
use deepseek_moderation_api.Text.{split, join, utf8_length}
use deepseek_moderation_api.ClientAddress.{
  Addr, Prefix, Net, trusted_address, read_addresses, walk, walk_from, forwarded_client, host_of,
  request_client_ip, unmap,
}
use deepseek_moderation_api.ClientAddress.Nearest.{
  is_untrusted, IsNearest, walk-IsNearest, walk-append, any-reverse, split-append, append_read,
  read_addresses-append,
}

-- The peer, or the nearest untrusted address of its proxies.
abbrev IsOwn : List Prefix → (peer : Addr) → List Addr → Addr → Type 0
IsOwn trusted peer addrs a = (a ≡ peer) ⊎ (a ≡ walk trusted peer (reverse addrs))

walk_from-IsOwn :
    (trusted : List Prefix) (peer : Addr) (front : Option (List Addr)) (addrs : List Addr)
    → any (is_untrusted trusted) (peer ∷ reverse addrs) ≡ true
    → IsOwn trusted peer addrs (walk_from trusted peer (append_read front (some addrs)))
walk_from-IsOwn trusted peer none addrs h = inl refl
walk_from-IsOwn trusted peer (some front) addrs h =
    inr
      (rw (reverse-append front addrs) (walk-append trusted peer (reverse addrs) (reverse front) h))

forwarded_client-IsOwn :
    (net : Net) (trusted : List Prefix) (peer : Addr) (front back : List ℕ) (addrs : List Addr)
    → read_addresses net (split b',' back) ≡ some addrs
    → any (is_untrusted trusted) (peer ∷ reverse addrs) ≡ true
    → IsOwn trusted peer addrs (forwarded_client net trusted peer (front ++ b',' ∷ back))
unfolding forwarded_client
forwarded_client-IsOwn net trusted peer front back addrs e h =
    elim (Bool-cases (not (trusted_address peer trusted))) [
      | inl stranger ↦ rw stranger (inl refl)
      | inr proxy ↦ elim (Bool-cases (length text == 0 || ltb 4096 (utf8_length text))) [
        | inl long ↦ rw (proxy, long) (inl refl)
        | inr short ↦ elim (Bool-cases (ltb 32 (length (split b',' text)))) [
          | inl many ↦ rw (proxy, short, many) (inl refl)
          | inr few ↦
              rw
                (
                  proxy,
                  short,
                  few,
                  split-append b',' front back,
                  read_addresses-append net (split b',' front) (split b',' back),
                  e,
                )
                (walk_from-IsOwn trusted peer (read_addresses net (split b',' front)) addrs h)
        ]
      ]
    ]
  where
    text : List ℕ
    text = front ++ b',' ∷ back

-- Where the text of the header ends with the addresses that the own proxies have written and one of
-- these is not trusted: whatever stands before them, the request is counted under its peer or under
-- the nearest address to the peer that is not trusted, which does not depend on what stands before.
pub request_client_ip-own :
    (net : Net) (trusted : List Prefix) (remote : List ℕ) (values : List (List ℕ))
    (front back : List ℕ) (addr : Addr) (addrs : List Addr)
    → net.parse_addr (host_of net remote) ≡ some addr
    → join b',' values ≡ front ++ b',' ∷ back
    → read_addresses net (split b',' back) ≡ some addrs
    → any (is_untrusted trusted) addrs ≡ true
    → (nearest : Addr) × IsNearest trusted (unmap addr ∷ reverse addrs) nearest
      × ((request_client_ip net trusted remote values ≡ some (unmap addr))
          ⊎ (request_client_ip net trusted remote values ≡ some nearest))
unfolding request_client_ip
request_client_ip-own net trusted remote values front back addr addrs p j e h =
    let reached : any (is_untrusted trusted) (unmap addr ∷ reverse addrs) ≡ true =
      ground (arith, any-reverse (is_untrusted trusted) addrs) in
    (
      walk trusted (unmap addr) (reverse addrs),
      walk-IsNearest trusted (unmap addr) (reverse addrs) reached,
      elim (forwarded_client-IsOwn net trusted (unmap addr) front back addrs e reached) [
        | inl peer ↦ inl (rw (p, request_client_ip, j, peer))
        | inr own ↦ inr (rw (p, request_client_ip, j, own))
      ],
    )
