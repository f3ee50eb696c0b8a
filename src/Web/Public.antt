-- ===== src/Web/Public.antt =====
-- services/web.py: what a read requests, and what it returns.
use core_heartbeat.Prelude.{
  ℕ, zero, suc, ◌+◌, ◌≤◌, Bool, true, false, not, ◌≡◌, refl, Option, none, some, List, [], ◌∷◌, all,
  any, is_empty, length, length-append, length-take-le, arith, Bool-cases, inl, inr, codes,
  is_space, strip, ltb, take, All, if_cases, leb,
}
use core_heartbeat.Web.Page.{Text, cut}
use core_heartbeat.Web.{
  Url, Lookup, gaierror, not_asked, found, Response, Net, is_public, Validated, valid,
  allowed_scheme, port_of, with_addresses, with_port, with_host, with_url, validate, Fetched, page,
  page_of, read_page, readable, Reading, followed, redirected, answered, rounds, fetch_page,
  max_chars, is_readable, max_redirects, to_target,
}

-- A URL that may be requested: http or https, with a host all of whose addresses are public.
pub record IsPublicUrl (net : Net) (url : Text) : Type 0 where
  pub source : Text
  pub parsed : Url
  pub host : Text
  pub port : ℕ
  pub addresses : List Text
  pub is_parsed : net.urlparse source ≡ some parsed
  pub same_url : url ≡ parsed.text
  pub web_scheme : allowed_scheme parsed.scheme ≡ true
  pub of_host : parsed.hostname ≡ some host
  pub resolved : net.getaddrinfo host port ≡ found addresses
  pub not_none : is_empty addresses ≡ false
  pub all_public : all (is_public net) addresses ≡ true

none_private :
    (p : Text → Bool) (xs : List Text) → any (λ x. not (p x)) xs ≡ false → all p xs ≡ true
none_private p [] h = refl
none_private p (x ∷ xs) h = ground (arith, none_private p xs)

module _ (net : Net) (url : Text) where
  -- The addresses of a host that is let through.
  record IsLetThrough (text : Text) (l : Lookup) : Type 0 where
    addresses : List Text
    resolved : l ≡ found addresses
    same_url : url ≡ text
    not_none : is_empty addresses ≡ false
    all_public : all (is_public net) addresses ≡ true

  with_addresses-IsLetThrough :
      (text : Text) (l : Lookup) → with_addresses net text l ≡ valid url → IsLetThrough text l
  with_addresses-IsLetThrough text gaierror e = cc
  with_addresses-IsLetThrough text not_asked e = cc
  with_addresses-IsLetThrough text (found ips) e = record {
    addresses = ips;
    resolved = refl;
    same_url = ground arith;
    not_none = ground arith;
    all_public = none_private (is_public net) ips (ground arith);
  }

  with_port-IsPublicUrl :
      (source : Text) (p : Url) (host : Text) (port : Option (Option ℕ))
      → net.urlparse source ≡ some p
      → allowed_scheme p.scheme ≡ true
      → p.hostname ≡ some host
      → with_port net p host port ≡ valid url
      → IsPublicUrl net url
  with_port-IsPublicUrl source p host none parse scheme named e = cc
  with_port-IsPublicUrl source p host (some port) parse scheme named e =
      let h = with_addresses-IsLetThrough p.text (net.getaddrinfo host (port_of port p.scheme)) e in
      record {
        source = source;
        parsed = p;
        host = host;
        port = port_of port p.scheme;
        addresses = h.addresses;
        is_parsed = parse;
        same_url = h.same_url;
        web_scheme = scheme;
        of_host = named;
        resolved = h.resolved;
        not_none = h.not_none;
        all_public = h.all_public;
      }

  with_host-IsPublicUrl :
      (source : Text) (p : Url) (host : Option Text)
      → net.urlparse source ≡ some p
      → allowed_scheme p.scheme ≡ true
      → p.hostname ≡ host
      → with_host net p host ≡ valid url
      → IsPublicUrl net url
  with_host-IsPublicUrl source p none parse scheme named e = cc
  with_host-IsPublicUrl source p (some []) parse scheme named e = cc
  with_host-IsPublicUrl source p (some (c ∷ host)) parse scheme named e =
      with_port-IsPublicUrl source p (c ∷ host) p.port parse scheme named e

  with_url-IsPublicUrl :
      (source : Text) (o : Option Url)
      → net.urlparse source ≡ o
      → with_url net o ≡ valid url
      → IsPublicUrl net url
  with_url-IsPublicUrl source none parse e = cc
  with_url-IsPublicUrl source (some p) parse e = elim (Bool-cases (allowed_scheme p.scheme)) [
    | inl ok ↦ with_host-IsPublicUrl source p p.hostname parse ok refl (rw ok at e)
    | inr bad ↦ cc (rw bad at e)
  ]

  validate-IsPublicUrl : (arg : Text) → validate net arg ≡ valid url → IsPublicUrl net url
  unfolding validate
  validate-IsPublicUrl arg e =
      with_url-IsPublicUrl (strip is_space arg) (net.urlparse (strip is_space arg)) refl e

-- What a read ends with: a page has some text, of a bounded length.
abbrev pub IsBounded : Fetched → Type 0
IsBounded (page url title text) = (is_empty text ≡ false) × (length text ≤ max_chars + 13)
IsBounded (Fetched.refused why) = Unit
IsBounded Fetched.crashed = Unit

-- A read so far: what it has requested, with the number of requests that it may make.
pub record IsSafe (net : Net) (most : ℕ) (r : Reading) : Type 0 where
  pub public_urls : All (IsPublicUrl net) r.0
  pub at_most : length r.0 ≤ most
  pub bounded : IsBounded r.1

length-cut : (n : ℕ) (s : Text) → length (cut n s) ≤ n + 13
unfolding cut
length-cut n s = elim (Bool-cases (ltb n (length s))) [
  | inl more ↦
      rw more
        (omega (arith, length-append (take n s) (codes "\n\n[truncated]"), length-take-le n s))
  | inr less ↦ rw less (ground arith)
]

cut_full : (n : ℕ) (c : ℕ) (s : Text) → is_empty (cut (suc n) (c ∷ s)) ≡ false
unfolding cut
cut_full n c s = ground arith

page_of-IsBounded : (url : Text) (r : Text × Text) → IsBounded (page_of url r)
page_of-IsBounded url (title, []) = tt
page_of-IsBounded url (title, c ∷ text) = (cut_full 11999 c text, length-cut max_chars (c ∷ text))

read_page-IsBounded : (r : Response) → IsBounded (read_page r)
read_page-IsBounded r =
    if_cases IsBounded (leb 400 r.status_code) (λ _. tt)
      (λ _.
        if_cases IsBounded (is_readable r.content_type) (λ _. page_of-IsBounded r.url (readable r))
          (λ _. tt))

module _ (net : Net) (n : ℕ) (next : Text → Reading)
    (rest : (url : Text) → IsPublicUrl net url → IsSafe net n (next url)) where
  followed-IsSafe :
      (v : Validated)
      → ((url : Text) → v ≡ valid url → IsPublicUrl net url)
      → IsSafe net n (followed next v)
  followed-IsSafe (valid url) h = rest url (h url refl)
  followed-IsSafe (Validated.refused why) h = record {
    public_urls = tt;
    at_most = omega arith;
    bounded = tt;
  }
  followed-IsSafe Validated.crashed h = record {
    public_urls = tt;
    at_most = omega arith;
    bounded = tt;
  }

  to_target-IsSafe : (target : Option Text) → IsSafe net n (to_target net next target)
  to_target-IsSafe none = record { public_urls = tt; at_most = omega arith; bounded = tt }
  to_target-IsSafe (some target) =
      followed-IsSafe (validate net target) (λ u e. validate-IsPublicUrl net u target e)

  redirected-IsSafe : (r : Response) → IsSafe net n (redirected net next r)
  redirected-IsSafe r =
      if_cases (IsSafe net n) (is_empty r.location)
        (λ _. record { public_urls = tt; at_most = omega arith; bounded = tt })
        (λ _. to_target-IsSafe r.joined)

  answered-IsSafe : (o : Option Response) → IsSafe net n (answered net next o)
  answered-IsSafe none = record { public_urls = tt; at_most = omega arith; bounded = tt }
  answered-IsSafe (some r) =
      if_cases (IsSafe net n) r.is_redirect (λ _. redirected-IsSafe r)
        (λ _. record { public_urls = tt; at_most = omega arith; bounded = read_page-IsBounded r })

rounds-IsSafe :
    (net : Net) (n : ℕ) (url : Text) → IsPublicUrl net url → IsSafe net n (rounds net n url)
unfolding rounds
rounds-IsSafe net zero url h = record { public_urls = tt; at_most = omega arith; bounded = tt }
rounds-IsSafe net (suc n) url h =
    let r = answered-IsSafe net n (rounds net n) (rounds-IsSafe net n) (net.get url) in
    record {
      public_urls = (h, r.public_urls);
      at_most = omega (arith, r.at_most);
      bounded = r.bounded;
    }

-- Whatever URL is asked for and wherever it redirects to, a read requests at most four URLs, and only
-- http and https ones whose host resolves to some addresses, all of which are public. A page
-- that is returned has some text, and at most 12,000 characters of it before the mark of a cut.
pub fetch_page-IsSafe :
    (net : Net) (url : Text) → IsSafe net (suc max_redirects) (fetch_page net url)
unfolding fetch_page
fetch_page-IsSafe net url =
    followed-IsSafe net 4 (rounds net 4) (rounds-IsSafe net 4) (validate net url)
      (λ u e. validate-IsPublicUrl net u url e)
