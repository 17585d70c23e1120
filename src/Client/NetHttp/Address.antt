-- ===== src/Client/NetHttp/Address.antt =====
-- `oauth_full_request_uri` of lib/oauth/client/net_http.rb: the address that is signed. `URI.parse` and
-- the text of a URI are Ruby's.
use oauth.Prelude.{
  ℕ, [], ◌∷◌, ◌≡◌, refl, Bool, false, Option, none, some, Bytes, codes, bytes_eq, if◌then◌else◌,
  drop, map,
}
use oauth.Prelude.Lines.{start_with, some_line_starts}
use oauth.Prelude.Split.{is_byte, split_by, join}
use oauth.Uri.{Uri}
use oauth.Outcome.{Outcome, ok, raise, invalid_uri}
use oauth.RequestProxy.{uri_text}

-- What the HTTP object tells; one without a method counts as one that gives nil.
pub record HttpObject : Type 0 where
  pub address : Option Bytes
  pub port : Option ℕ
  pub use_ssl : Bool

-- `x ||= y`
unfoldable pub or_given : {A : Type 0} → Option A → Option A → Option A
or_given none y = y
or_given (some x) y = some x

-- `gsub(%r{^https?://}, "")`, on one line and on all
unfoldable pub drop_scheme : Bytes → Bytes
unfolding start_with
drop_scheme line =
    if start_with line (codes "https://")
    then drop 8 line
    else if start_with line (codes "http://")
    then drop 7 line
    else line

unfoldable pub without_scheme : Bytes → Bytes
unfolding drop_scheme split_by join
without_scheme site = join (10 ∷ []) (map drop_scheme (split_by (is_byte 10) site))

unfoldable pub default_port : Bool → ℕ
default_port https = if https then 443 else 80

unfoldable pub from_object : HttpObject → Uri → Uri
unfolding or_given
from_object http u = record u {
  host = or_given u.host http.address;
  port = or_given u.port http.port;
}

-- `if options[:request_endpoint] && options[:site]`
unfoldable pub from_endpoint : Option Bytes → Option Bytes → Uri → Uri
unfolding or_given without_scheme default_port some_line_starts
from_endpoint (some endpoint) (some site) u = record u {
  host = some (without_scheme site);
  port = or_given u.port (some (default_port (some_line_starts (codes "https://") site)));
}
from_endpoint _ _ u = u

-- A site that cannot be parsed is passed over.
unfoldable pub from_uri : Option Uri → Uri → Uri
unfolding or_given
from_uri none u = u
from_uri (some s) u = record u {
  host = or_given u.host s.host;
  scheme = or_given u.scheme s.scheme;
  port = or_given u.port s.port;
}

unfoldable pub from_site : (Bytes → Option Uri) → Option Bytes → Uri → Uri
unfolding from_uri
from_site parse_uri none u = u
from_site parse_uri (some site) u = from_uri (parse_uri site) u

is_https : Option Bytes → Bool
is_https none = false
is_https (some scheme) = bytes_eq scheme (codes "https")

-- The last resort.
unfoldable pub complete : Bool → Uri → Uri
unfolding or_given is_https default_port
complete use_ssl u =
    let scheme = or_given u.scheme (some (if use_ssl then codes "https" else codes "http")) in
    record u {
      scheme = scheme;
      host = or_given u.host (some (codes "localhost"));
      port = or_given u.port (some (default_port (is_https scheme)));
    }

module _ (parse_uri : Bytes → Option Uri) (to_s : Uri → Bytes) (http : HttpObject)
    (site request_endpoint : Option Bytes) where
  unfoldable pub full_uri : Uri → Uri
  unfolding from_object from_endpoint from_site complete
  full_uri u =
      complete http.use_ssl
        (from_site parse_uri site (from_endpoint request_endpoint site (from_object http u)))

  text_of : Option Uri → Outcome Bytes
  text_of none = raise invalid_uri
  text_of (some u) = ok (to_s (full_uri u))

  unfoldable pub oauth_full_request_uri : Bytes → Outcome Bytes
  unfolding text_of full_uri
  oauth_full_request_uri path = text_of (parse_uri path)

or_given-some : {A : Type 0} (x : Option A) (y : A) → (z : A) × (or_given x (some y) ≡ some z)
unfolding or_given
or_given-some none y = (y, refl)
or_given-some (some x) y = (x, refl)

uri_text-given :
    (u : Uri) (scheme host : Bytes)
    → u.scheme ≡ some scheme
    → u.host ≡ some host
    → (text : Bytes) × (uri_text u ≡ ok text)
unfolding uri_text
uri_text-given u scheme host is_scheme is_host = rw (is_scheme, is_host) (_, refl)

-- The address has all that `normalized_uri` reads, whatever the path and the options lack.
pub uri_text-full_uri :
    (parse_uri : Bytes → Option Uri) (to_s : Uri → Bytes) (http : HttpObject)
    (site request_endpoint : Option Bytes) (u : Uri)
    → (text : Bytes) × (uri_text (full_uri parse_uri to_s http site request_endpoint u) ≡ ok text)
unfolding full_uri complete
uri_text-full_uri parse_uri to_s http site request_endpoint u =
    let v = from_site parse_uri site (from_endpoint request_endpoint site (from_object http u)) in
    let (scheme, is_scheme) =
      or_given-some v.scheme (if http.use_ssl then codes "https" else codes "http") in
    let (host, is_host) = or_given-some v.host (codes "localhost") in
    uri_text-given (complete http.use_ssl v) scheme host is_scheme is_host
