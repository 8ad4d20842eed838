-- ===== src/Publisher/Media.antt =====
-- `media_publishable` of pinterest_publisher.py: whether a picture's URL is one that the provider
-- may be sent to.
use sm_poster.Prelude.{
  String, Bool, false, not, ◌||◌, Option, none, some, str_eq, if◌then◌else◌, truthy?, or_empty,
  ends_with, rstrip_dots,
}

pub record UrlParts : Type 0 where
  pub scheme : String
  pub hostname : Option String
  pub username : Option String
  pub password : Option String

-- The properties of `ipaddress.ip_address(host)`.
pub record IpAddress : Type 0 where
  pub is_private : Bool
  pub is_loopback : Bool
  pub is_link_local : Bool
  pub is_reserved : Bool
  pub is_unspecified : Bool
  pub is_multicast : Bool

-- Python's `urlsplit`, `ip_address` (`none` is a `ValueError`) and `str.lower`.
pub record UrlLibrary : Type 0 where
  pub urlsplit : String → Option UrlParts
  pub ip_address : String → Option IpAddress
  pub lower : String → String

abbrev is_internal_ip : Option IpAddress → Bool
is_internal_ip none = false
is_internal_ip (some ip) =
    ip.is_private || ip.is_loopback || ip.is_link_local || ip.is_reserved || ip.is_unspecified
    || ip.is_multicast

unfoldable pub public_host : UrlLibrary → String → Bool
public_host lib hostname =
    let host = rstrip_dots (lib.lower hostname) in
    if str_eq host "localhost" || ends_with host ".localhost" || ends_with host ".local"
    then false
    else not (is_internal_ip (lib.ip_address host))

unfoldable pub publishable_parts : UrlLibrary → Option UrlParts → Bool
publishable_parts lib none = false
publishable_parts lib (some p) =
    if not (str_eq p.scheme "https")
      || not (truthy? p.hostname)
      || truthy? p.username
      || truthy? p.password
    then false
    else public_host lib (or_empty p.hostname)

unfoldable pub media_publishable : UrlLibrary → Option String → Bool
unfolding publishable_parts
media_publishable lib value = publishable_parts lib (lib.urlsplit (or_empty value))
