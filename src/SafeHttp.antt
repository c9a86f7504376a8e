-- ===== src/SafeHttp.antt =====
-- Fetching a URL that the server names: phylax/utils/safe_http.py. What it takes from outside is a
-- parameter: the parsing of URLs and addresses, the resolver and the HTTP client, of which the last
-- two may answer differently from hop to hop.
pub mod Hops
pub mod Private
use phylax_subnet.Prelude.{
  ℕ, zero, suc, ◌+◌, ◌*◌, ◌/◌, ◌-◌, ◌^◌, Bool, true, false, not, ◌&&◌, ◌||◌, String, Option, none,
  some, List, [], ◌∷◌, ◌==◌, if◌then◌else◌, leb, ltb, ◌=ℕ◌, length,
}
use phylax_subnet.Value.{Outcome, returns, raises, ◌>>=◌}

-- ipaddress.IPv4Address and IPv6Address, as numbers of 32 and of 128 bits.
pub data Address : Type 0 where
  v4 : ℕ → Address
  v6 : ℕ → Address

-- A network: its address, and how many low bits are free.
pub record Net : Type 0 where
  pub address : Address
  pub free : ℕ

-- a.b.c.d
abbrev pub dotted : ℕ → ℕ → ℕ → ℕ → ℕ
dotted a b c d = ((a * 256 + b) * 256 + c) * 256 + d

abbrev pub net4 : ℕ → ℕ → ℕ → ℕ → ℕ → Net
net4 a b c d prefix = record { address = v4 (dotted a b c d); free = 32 - prefix }

-- The IPv6 network of a first group and a last group, the others being 0.
abbrev pub net6 : ℕ → ℕ → ℕ → Net
net6 first last prefix = record { address = v6 (first * 2 ^ 112 + last); free = 128 - prefix }

-- `_PRIVATE_NETS`
abbrev pub private_nets : List Net
private_nets =
    net4 0 0 0 0 8
    ∷ net4 10 0 0 0 8
    ∷ net4 127 0 0 0 8
    ∷ net4 169 254 0 0 16
    ∷ net4 172 16 0 0 12
    ∷ net4 192 168 0 0 16
    ∷ net6 0 1 128
    ∷ net6 64512 0 7
    ∷ net6 65152 0 10
    ∷ []

-- addr in net: the bits above the free ones agree.
unfoldable pub in_net : Address → Net → Bool
in_net addr net =
    let prefix_of = λ (n : ℕ). n / 2 ^ net.free in
    elim addr [
      | v4 n ↦ elim net.address [ v4 m ↦ prefix_of n =ℕ prefix_of m | v6 m ↦ false ]
      | v6 n ↦ elim net.address [ v4 m ↦ false | v6 m ↦ prefix_of n =ℕ prefix_of m ]
    ]

unfoldable pub in_any : Address → List Net → Bool
in_any addr [] = false
in_any addr (net ∷ nets) = in_net addr net || in_any addr nets

pub record ParsedUrl : Type 0 where
  pub scheme : String
  -- "" where the URL has none
  pub hostname : String

pub record Response : Type 0 where
  pub status : ℕ
  pub url : String
  pub location : Option String
  pub content : List ℕ

-- What the module calls.
pub record Network : Type 0 where
  -- urllib.parse.urlparse: none where it raises
  pub parse_url : String → Option ParsedUrl
  -- ipaddress.ip_address: none is the `ValueError`
  pub ip_address : String → Option Address
  -- socket.getaddrinfo at a hop: none is the `gaierror`
  pub resolve : ℕ → String → Outcome (Option (List String))
  -- urllib.parse.urljoin
  pub join : String → String → Outcome String
  -- client.get at a hop: none where it raises
  pub request : ℕ → String → Option Response

module _ (net : Network) where
  -- `_ip_is_private`
  unfoldable pub ip_is_private : String → Bool
  ip_is_private addr_str = elim (net.ip_address addr_str) [
    | none ↦ true
    | some addr ↦ in_any addr private_nets
  ]

  abbrev pub none_private : List String → Bool
  none_private [] = true
  none_private (info ∷ infos) = if ip_is_private info then false else none_private infos

  -- `_host_resolves_safely`
  unfoldable pub host_resolves_safely : ℕ → String → Outcome Bool
  host_resolves_safely hop host = do
    infos ← net.resolve hop host
    elim infos [ none ↦ returns false | some addresses ↦ returns (none_private addresses) ]

  -- `is_safe_url`
  unfoldable pub is_safe_url : ℕ → String → Outcome Bool
  is_safe_url hop url = elim (net.parse_url url) [
    | none ↦ returns false
    | some parsed ↦
        if not (parsed.scheme == "http" || parsed.scheme == "https")
        then returns false
        else if parsed.hostname == ""
        then returns false
        else host_resolves_safely hop parsed.hostname
  ]

  -- What a fetch asked for, each URL with its hop, and how it ended.
  abbrev pub Fetch : Type 0
  Fetch = List (ℕ × String) × Outcome (Option (List ℕ))

  abbrev pub nothing : Fetch
  nothing = ([], returns none)

  -- The URL that a redirect leads to, unless there is none or it is not safe.
  unfoldable pub redirected : ℕ → Response → Outcome (Option String)
  redirected hop r = elim r.location [
    | none ↦ returns none
    | some loc ↦ if loc == "" then returns none else (do
      next_url ← net.join r.url loc
      safe ← is_safe_url (hop + 1) next_url
      returns (if safe then some next_url else none))
  ]

  -- The loop of `safe_get_bytes`: the rounds that are left, the hop, and the current URL.
  unfoldable pub hops : ℕ → ℕ → ℕ → String → Fetch
  hops max_bytes zero hop current = nothing
  hops max_bytes (suc rounds) hop current = elim (net.request hop current) [
    | none ↦ ((hop, current) ∷ [], returns none)
    | some r ↦
        if leb 300 r.status && ltb r.status 400
        then elim (redirected hop r) [
          | raises ↦ ((hop, current) ∷ [], raises)
          | returns none ↦ ((hop, current) ∷ [], returns none)
          | returns (some next_url) ↦
              let rest = hops max_bytes rounds (hop + 1) next_url in
              ((hop, current) ∷ rest.0, rest.1)
        ]
        else if r.status =ℕ 200
        then (
          (hop, current) ∷ [],
          returns (if ltb max_bytes (length r.content) then none else some r.content),
        )
        else ((hop, current) ∷ [], returns none)
  ]

  -- `safe_get_bytes`
  unfoldable pub safe_get_bytes : ℕ → ℕ → String → Fetch
  safe_get_bytes max_redirects max_bytes url = elim (is_safe_url 0 url) [
    | raises ↦ ([], raises)
    | returns false ↦ nothing
    | returns true ↦ hops max_bytes (max_redirects + 1) 0 url
  ]
