-- ===== src/Examples/SafeHttp.antt =====
-- A network where a public URL redirects to a body, and another to the cloud's metadata.
use phylax_subnet.Prelude.{◌≡◌, refl, false, none, some, [], ◌∷◌, ◌==◌, if◌then◌else◌, All, arith}
use phylax_subnet.Value.{returns}
use phylax_subnet.SafeHttp.{
  v4, Network, Response, safe_get_bytes, hops, redirected, is_safe_url, host_resolves_safely,
  ip_is_private, in_any, in_net, private_nets, dotted,
}
use phylax_subnet.SafeHttp.Hops.{safe_get_bytes-IsChecked, IsChecked}
use phylax_subnet.SafeHttp.Private.{in_any-mapped, mapped}

abbrev page : Response
page = record { status = 200; url = "https://a/x"; location = none; content = 7 ∷ 8 ∷ [] }

abbrev moved : Response
moved = record { status = 302; url = "https://a/"; location = some "x"; content = [] }

abbrev stolen : Response
stolen = record { status = 302; url = "https://b/"; location = some "http://m/"; content = [] }

abbrev net : Network
net = record {
  parse_url =
      λ url. some (record { scheme = "https"; hostname = if url == "http://m/" then "m" else "a" });
  ip_address = λ addr.
      some (v4 (if addr == "169.254.169.254" then dotted 169 254 169 254 else dotted 1 1 1 1));
  resolve =
      λ hop host. returns (some ((if host == "m" then "169.254.169.254" else "1.1.1.1") ∷ []));
  join = λ base loc. returns (if loc == "x" then "https://a/x" else loc);
  request = λ hop url.
      some (if url == "https://a/" then moved else if url == "https://b/" then stolen else page);
}

follows :
    safe_get_bytes net 5 100 "https://a/"
    ≡ ((0, "https://a/") ∷ (1, "https://a/x") ∷ [], returns (some (7 ∷ 8 ∷ [])))
unfolding safe_get_bytes hops redirected is_safe_url host_resolves_safely ip_is_private in_any
    in_net
follows = refl

stops : safe_get_bytes net 5 100 "https://b/" ≡ ((0, "https://b/") ∷ [], returns none)
unfolding safe_get_bytes hops redirected is_safe_url host_resolves_safely ip_is_private in_any
    in_net
stops = refl

safe_get_bytes-IsChecked_example : All (IsChecked net) (safe_get_bytes net 5 100 "https://a/").0
safe_get_bytes-IsChecked_example = safe_get_bytes-IsChecked net 5 100 "https://a/"

body_returned : (safe_get_bytes net 5 100 "https://a/").1 ≡ returns (some (7 ∷ 8 ∷ []))
body_returned = rw follows refl

in_any-mapped_example : in_any (mapped (dotted 127 0 0 1)) private_nets ≡ false
in_any-mapped_example = in_any-mapped (dotted 127 0 0 1) (omega arith)
