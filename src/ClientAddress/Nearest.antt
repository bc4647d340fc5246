-- ===== src/ClientAddress/Nearest.antt =====
-- Where the walk over the hops ends (internal/audit/trusted_proxy.go).
use mathlib.Core.List.{reverse, reverse-append}
use deepseek_moderation_api.Prelude.{
  ℕ, ◌≡◌, refl, ap, Bool, true, false, not, ◌||◌, List, [], ◌∷◌, ◌++◌, Option, none, some, arith,
  any, All, Bool-cases, inl, inr, ◌==◌,
}
use deepseek_moderation_api.Text.{split}
use deepseek_moderation_api.Money.{trim_space}
use deepseek_moderation_api.ClientAddress.{
  Addr, Prefix, Net, trusted_address, add_read, read_addresses, walk,
}

abbrev pub is_untrusted : List Prefix → Addr → Bool
is_untrusted trusted a = not (trusted_address a trusted)

-- The first address of a chain, from the peer to the left, that is not trusted.
pub record IsNearest (trusted : List Prefix) (chain : List Addr) (a : Addr) : Type 0 where
  pub nearer : List Addr
  pub farther : List Addr
  pub stands : chain ≡ nearer ++ a ∷ farther
  pub proxies : All (λ p. trusted_address p trusted ≡ true) nearer
  pub end : trusted_address a trusted ≡ false

pub walk-IsNearest :
    (trusted : List Prefix) (client : Addr) (hops : List Addr)
    → any (is_untrusted trusted) (client ∷ hops) ≡ true
    → IsNearest trusted (client ∷ hops) (walk trusted client hops)
unfolding walk
walk-IsNearest trusted client [] h = record {
  nearer = [];
  farther = [];
  stands = refl;
  proxies = tt;
  end = ground arith;
}
walk-IsNearest trusted client (hop ∷ hops) h = elim (Bool-cases (trusted_address client trusted)) [
  | inl proxy ↦
      let n = walk-IsNearest trusted hop hops (ground arith) in
      rw proxy (record {
        nearer = client ∷ n.nearer;
        farther = n.farther;
        stands = ap (λ cs. client ∷ cs) n.stands;
        proxies = (proxy, n.proxies);
        end = n.end;
      })
  | inr stranger ↦
      rw stranger
        (record { nearer = []; farther = hop ∷ hops; stands = refl; proxies = tt; end = stranger })
]

-- What stands behind an untrusted address does not matter.
pub walk-append :
    (trusted : List Prefix) (client : Addr) (hops more : List Addr)
    → any (is_untrusted trusted) (client ∷ hops) ≡ true
    → walk trusted client (hops ++ more) ≡ walk trusted client hops
unfolding walk
walk-append trusted client [] [] h = refl
walk-append trusted client [] (m ∷ more) h = ground arith
walk-append trusted client (hop ∷ hops) more h = ground (arith, walk-append trusted hop hops more)

pub any-append : (p : Addr → Bool) (xs ys : List Addr) → any p (xs ++ ys) ≡ (any p xs || any p ys)
any-append p [] ys = refl
any-append p (x ∷ xs) ys = ground (arith, any-append p xs ys)

pub any-reverse : (p : Addr → Bool) (xs : List Addr) → any p (reverse xs) ≡ any p xs
any-reverse p [] = refl
any-reverse p (x ∷ xs) =
    let turned = any-append p (reverse xs) (x ∷ []) in
    rw (reverse-append (x ∷ []) xs) (ground (arith, turned, any-reverse p xs))

split-cons :
    (c : ℕ) (text : List ℕ)
    → (part : List ℕ) × (parts : List (List ℕ)) × (split c text ≡ part ∷ parts)
unfolding split
split-cons c [] = ([], [], refl)
split-cons c (x ∷ xs) =
    let (part, parts, e) = split-cons c xs in
    elim (Bool-cases (x == c)) [
      | inl ends ↦ ([], split c xs, rw ends)
      | inr goes ↦ (x ∷ part, parts, rw (goes, e))
    ]

pub split-append :
    (c : ℕ) (front back : List ℕ) → split c (front ++ c ∷ back) ≡ split c front ++ split c back
unfolding split
split-append c [] back = ground arith
split-append c (x ∷ xs) back =
    let (part, parts, e) = split-cons c xs in
    elim (Bool-cases (x == c)) [
      | inl ends ↦ rw (ends, split-append c xs back)
      | inr goes ↦ rw (goes, split-append c xs back, e)
    ]

abbrev pub append_read : Option (List Addr) → Option (List Addr) → Option (List Addr)
append_read none bs = none
append_read (some as') none = none
append_read (some as') (some bs) = some (as' ++ bs)

add_read-append :
    (a : Option Addr) (xs ys : Option (List Addr))
    → add_read a (append_read xs ys) ≡ append_read (add_read a xs) ys
add_read-append none xs ys = refl
add_read-append (some a) none ys = ground arith
add_read-append (some a) (some xs) none = ground arith
add_read-append (some a) (some xs) (some ys) = ground arith

append_nothing : (ys : Option (List Addr)) → ys ≡ append_read (some []) ys
append_nothing none = refl
append_nothing (some ys) = refl

pub read_addresses-append :
    (net : Net) (xs ys : List (List ℕ))
    → read_addresses net (xs ++ ys) ≡ append_read (read_addresses net xs) (read_addresses net ys)
unfolding read_addresses
read_addresses-append net [] ys = append_nothing (read_addresses net ys)
read_addresses-append net (x ∷ xs) ys = rw (read_addresses-append net xs ys) (
    add_read-append (net.parse_addr (trim_space x)) (read_addresses net xs) (read_addresses net ys))
