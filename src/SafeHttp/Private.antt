-- ===== src/SafeHttp/Private.antt =====
-- Which addresses the block list holds: `_PRIVATE_NETS` of phylax/utils/safe_http.py.
use phylax_subnet.Prelude.{ℕ, ◌+◌, ◌*◌, ◌^◌, ◌≤◌, ◌<◌, ◌≡◌, ◌↔◌, true, false, ◌⊎◌, arith}
use phylax_subnet.SafeHttp.{Address, v4, v6, in_any, in_net, private_nets, dotted}

-- The six ranges of IPv4 addresses that are not to be fetched from.
abbrev pub IsPrivate4 : ℕ → Type 0
IsPrivate4 n =
    (n ≤ dotted 0 255 255 255)
    ⊎ ((dotted 10 0 0 0 ≤ n) × (n ≤ dotted 10 255 255 255))
    ⊎ ((dotted 127 0 0 0 ≤ n) × (n ≤ dotted 127 255 255 255))
    ⊎ ((dotted 169 254 0 0 ≤ n) × (n ≤ dotted 169 254 255 255))
    ⊎ ((dotted 172 16 0 0 ≤ n) × (n ≤ dotted 172 31 255 255))
    ⊎ ((dotted 192 168 0 0 ≤ n) × (n ≤ dotted 192 168 255 255))

-- The list holds an IPv4 address exactly when the address lies in one of the six ranges.
pub in_any-v4 : (n : ℕ) → (in_any (v4 n) private_nets ≡ true) ↔ IsPrivate4 n
unfolding in_any in_net
in_any-v4 n = ground arith

-- The IPv6 address that stands for an IPv4 address, ::ffff:a.b.c.d.
abbrev pub mapped : ℕ → Address
mapped n = v6 (65535 * 2 ^ 32 + n)

-- No such address is in the list, whatever IPv4 address it stands for.
pub in_any-mapped : (n : ℕ) → n < 2 ^ 32 → in_any (mapped n) private_nets ≡ false
unfolding in_any in_net
in_any-mapped n h = ground arith
