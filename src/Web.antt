-- ===== src/Web.antt =====
-- services/web.py and tools/web_tools.py: the test of a URL, a page read with its redirects, and the
-- tools over it. A read returns what it ends with and the URLs that it has requested.
pub mod Page
pub mod Public
pub mod Tests
use core_heartbeat.Prelude.{
  ℕ, zero, suc, Bool, false, not, ◌||◌, Option, none, some, List, [], ◌∷◌, ◌++◌, any, is_empty, leb,
  codes, same_codes, is_space, strip, if◌then◌else◌, contains,
}
use core_heartbeat.Web.Page.{Text, squeezed, cut}

-- What `ipaddress` says of an address.
pub record Address : Type 0 where
  pub is_private : Bool
  pub is_loopback : Bool
  pub is_link_local : Bool
  pub is_reserved : Bool
  pub is_multicast : Bool
  pub is_unspecified : Bool

-- A parsed URL: `urlparse` gives the scheme in lower case. The port is none where reading it raises;
-- `text` is what `urlunparse` makes of it.
pub record Url : Type 0 where
  pub scheme : Text
  pub hostname : Option Text
  pub port : Option (Option ℕ)
  pub text : Text

-- `getaddrinfo`: gaierror, another exception, or the addresses.
pub data Lookup : Type 0 where
  gaierror : Lookup
  not_asked : Lookup
  found : List Text → Lookup

-- The title, unless there is none, and the text of a page without its chrome.
pub record Soup : Type 0 where
  pub title : Option Text
  pub text : Text

-- A response: its `Location`, that joined to its URL (none where this raises), and its body up to
-- MAX_BYTES, decoded and parsed.
pub record Response : Type 0 where
  pub is_redirect : Bool
  pub location : Text
  pub joined : Option Text
  pub status_code : ℕ
  pub content_type : Text
  pub decoded : Text
  pub soup : Soup
  pub url : Text

-- The network and the parsers, as parameters. A request that raises has no response.
pub record Net : Type 0 where
  pub urlparse : Text → Option Url
  pub ip_address : Text → Option Address
  pub getaddrinfo : Text → ℕ → Lookup
  pub get : Text → Option Response

abbrev pub max_redirects : ℕ
max_redirects = 3

abbrev pub max_chars : ℕ
max_chars = 12000

-- The reasons of a WebFetchError.
pub data Refusal : Type 0 where
  bad_scheme no_hostname not_resolved private_address no_destination : Refusal
  http_status : ℕ → Refusal
  not_readable no_text too_many_redirects : Refusal

-- `_is_public`
abbrev pub public_address : Option Address → Bool
public_address none = false
public_address (some a) = not (
    a.is_private || a.is_loopback || a.is_link_local || a.is_reserved || a.is_multicast
    || a.is_unspecified)

unfoldable pub is_public : Net → Text → Bool
is_public net ip = public_address (net.ip_address ip)

pub data Validated : Type 0 where
  valid : Text → Validated
  refused : Refusal → Validated
  crashed : Validated

abbrev pub allowed_scheme : Text → Bool
allowed_scheme scheme = same_codes scheme (codes "http") || same_codes scheme (codes "https")

-- `parsed.port or (443 if parsed.scheme == "https" else 80)`
abbrev pub default_port : Text → ℕ
default_port scheme = if same_codes scheme (codes "https") then 443 else 80

abbrev pub port_of : Option ℕ → Text → ℕ
port_of none scheme = default_port scheme
port_of (some zero) scheme = default_port scheme
port_of (some (suc n)) scheme = suc n

abbrev pub with_addresses : Net → Text → Lookup → Validated
with_addresses net text gaierror = refused not_resolved
with_addresses net text not_asked = crashed
with_addresses net text (found ips) =
    if is_empty ips
    then refused not_resolved
    else if any (λ ip. not (is_public net ip)) ips
    then refused private_address
    else valid text

abbrev pub with_port : Net → Url → Text → Option (Option ℕ) → Validated
with_port net p host none = crashed
with_port net p host (some port) =
    with_addresses net p.text (net.getaddrinfo host (port_of port p.scheme))

abbrev pub with_host : Net → Url → Option Text → Validated
with_host net p none = refused no_hostname
with_host net p (some []) = refused no_hostname
with_host net p (some (c ∷ host)) = with_port net p (c ∷ host) p.port

abbrev pub with_url : Net → Option Url → Validated
with_url net none = crashed
with_url net (some p) =
    if allowed_scheme p.scheme then with_host net p p.hostname else refused bad_scheme

-- `_validate`
unfoldable pub validate : Net → Text → Validated
unfolding is_public is_space
validate net url = with_url net (net.urlparse (strip is_space url))

-- What a read ends with.
pub data Fetched : Type 0 where
  page : Text → Text → Text → Fetched
  refused : Refusal → Fetched
  crashed : Fetched

-- The title and the text of a response; `_extract` unless it is plain text.
abbrev pub or_untitled : Option Text → Text
or_untitled none = []
or_untitled (some title) = strip is_space title

abbrev pub readable : Response → Text × Text
readable r =
    if contains (codes "text/plain") r.content_type
    then ([], strip is_space r.decoded)
    else (or_untitled r.soup.title, squeezed r.soup.text)

abbrev pub is_readable : Text → Bool
is_readable content_type =
    any (λ t. contains (codes t) content_type)
      ("text/html" ∷ "text/plain" ∷ "application/xhtml" ∷ [])

abbrev pub page_of : Text → Text × Text → Fetched
page_of url (title, []) = refused no_text
page_of url (title, c ∷ text) = page url title (cut max_chars (c ∷ text))

abbrev pub read_page : Response → Fetched
read_page r =
    if leb 400 r.status_code
    then refused (http_status r.status_code)
    else if is_readable r.content_type
    then page_of r.url (readable r)
    else refused not_readable

-- What is requested, one URL after another, and the end.
abbrev pub Reading : Type 0
Reading = List Text × Fetched

-- The next round, for a URL that has been tested.
abbrev pub followed : (Text → Reading) → Validated → Reading
followed next (valid url) = next url
followed next (refused why) = ([], refused why)
followed next crashed = ([], crashed)

abbrev pub to_target : Net → (Text → Reading) → Option Text → Reading
to_target net next none = ([], crashed)
to_target net next (some target) = followed next (validate net target)

abbrev pub redirected : Net → (Text → Reading) → Response → Reading
redirected net next r =
    if is_empty r.location then ([], refused no_destination) else to_target net next r.joined

abbrev pub answered : Net → (Text → Reading) → Option Response → Reading
answered net next none = ([], crashed)
answered net next (some r) = if r.is_redirect then redirected net next r else ([], read_page r)

abbrev pub requested : Text → Reading → Reading
requested url (urls, end) = (url ∷ urls, end)

-- The loop, with the rounds that are left.
unfoldable pub rounds : Net → ℕ → Text → Reading
unfolding validate
rounds net zero current = ([], refused too_many_redirects)
rounds net (suc left) current = requested current (answered net (rounds net left) (net.get current))

unfoldable pub fetch_page : Net → Text → Reading
unfolding rounds
fetch_page net url = followed (rounds net (suc max_redirects)) (validate net url)

-- The tool: a text for the model, or an error.
pub data Answer : Type 0 where
  text : Text → Answer
  no_url : Answer
  error : Refusal → Answer
  failed : Answer

abbrev pub headed : Text → Text → Text
headed [] url = url ++ codes "\n\n"
headed (c ∷ title) url = (c ∷ title) ++ (codes "\n" ++ (url ++ codes "\n\n"))

abbrev pub shown : Fetched → Answer
shown (page url title body) = text (headed title url ++ body)
shown (refused why) = error why
shown crashed = failed

unfoldable pub fetch_url : Net → Option Text → List Text × Answer
unfolding fetch_page
fetch_url net none = ([], no_url)
fetch_url net (some arg) =
    if is_empty (strip is_space arg)
    then ([], no_url)
    else (let (urls, end) = fetch_page net (strip is_space arg) in (urls, shown end))
