-- ===== src/Router/Tests.antt =====
-- Witnesses of the theorems on router.py.
use core_heartbeat.Prelude.{str_eq, ℕ, String, refl, Bool, true, Option, some, none, leb}
use core_heartbeat.Router.{Services, stored, Endpoint, ingest, upload, handle}
use core_heartbeat.Router.Owners.{AllAllowed, handle-AllAllowed}
use core_heartbeat.Router.Refusals.{IsRefusal, caller_refused}
use core_heartbeat.Router.Intent.{Floats}

abbrev admins : String → Option Bool
admins user = some (str_eq user "ana")

abbrev services : Services
services = record {
  is_admin = admins;
  fetch_original = λ user doc. some (record { content = "a,b"; size = 3 });
  parse_document = λ f name. some "a b";
  ingest = λ owner name f replaces. some "job 1";
  delete_document = λ doc owner. some true;
  get_job = λ id owner. some "done";
  list_documents = λ owner. some "[]";
  store_stream = λ name. stored name;
  list_uploads = stored "[]";
  delete_upload = λ name. stored name;
  unquote = λ name. name;
}

abbrev shared : Endpoint
shared = ingest "global" "d1" "rates.csv" none

handle-AllAllowed_example : AllAllowed services "ana" (handle services "ana" shared).1
handle-AllAllowed_example = handle-AllAllowed services "ana" shared

caller_refused_example : IsRefusal 403 (handle services "ben" (upload "a.txt"))
caller_refused_example = caller_refused services "ben" (upload "a.txt") 403 refl

-- Hundredths.
abbrev cents : Floats ℕ
cents = record { leq = leb; zero = 0; half = 50; one = 100; parse = λ raw. some 70 }

abbrev outcome : String
outcome = "completed"
