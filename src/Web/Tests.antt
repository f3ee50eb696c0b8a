-- ===== src/Web/Tests.antt =====
-- Runs of a read of services/web.py, and the witness of the theorem on it.
use core_heartbeat.Prelude.{
  ◌≡◌, refl, some, none, true, false, [], ◌∷◌, codes, same_codes, if◌then◌else◌,
}
use core_heartbeat.Web.Page.{Text, squeezed}
use core_heartbeat.Web.{Address, found, Net, refused, private_address, fetch_page}
use core_heartbeat.Web.Public.{IsSafe, fetch_page-IsSafe}

abbrev public_site : Text
public_site = codes "http://example.org/"

abbrev private_site : Text
private_site = codes "http://internal/"

abbrev address : Text → Address
address ip = record {
  is_private = same_codes ip (codes "10.0.0.7");
  is_loopback = false;
  is_link_local = false;
  is_reserved = false;
  is_multicast = false;
  is_unspecified = false;
}

-- A public site that redirects to a private one.
abbrev net : Net
net = record {
  urlparse = λ url. some (record {
    scheme = codes "http";
    hostname = some (if same_codes url private_site then codes "internal" else codes "example.org");
    port = some none;
    text = url;
  });
  ip_address = λ ip. some (address ip);
  getaddrinfo = λ host port. found (
      (if same_codes host (codes "internal") then codes "10.0.0.7" else codes "93.184.216.34")
      ∷ []);
  get = λ url. some (record {
    is_redirect = true;
    location = codes "http://internal/";
    joined = some private_site;
    status_code = 302;
    content_type = [];
    decoded = [];
    soup = record { title = none; text = [] };
    url = url;
  });
}

-- The redirect is not followed.
redirect_stopped : fetch_page net public_site ≡ (public_site ∷ [], refused private_address)
unfolding fetch_page
redirect_stopped = refl

lines_kept : squeezed (codes " a \t b\n\n  \n\nc\n\nd ") ≡ codes "a b\n\nc\n\nd"
unfolding squeezed
lines_kept = refl

fetch_page-IsSafe_example : IsSafe net 4 (fetch_page net public_site)
fetch_page-IsSafe_example = fetch_page-IsSafe net public_site
