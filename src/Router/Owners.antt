-- ===== src/Router/Owners.antt =====
-- Whose documents, and whose knowledge base, an endpoint of router.py touches.
use core_heartbeat.Prelude.{
  codes, is_space, strip, is_empty, Option-cases, String, ◌≡◌, refl, Bool, true, false, Option,
  none, some, List, [], ◌∷◌, if_cases, arith, ◌⊎◌, inl, inr, str_eq, ltb,
}
use core_heartbeat.Kb.{global_owner}
use core_heartbeat.Router.{
  Services, File, Upload, stored, upload_error, crashed, Effect, fetched, stored_text, ingested,
  deleted, read_job, listed, saved_upload, listed_uploads, deleted_upload, Response, Handled,
  is_sandbox, admin, parse_original, parse_document_endpoint, ingest_result, ingest_file, kb_ingest,
  read_result, kb_job, kb_documents, delete_result, kb_delete_document, require_admin,
  unless_refused, upload_result, named, upload_file, list_uploads, delete_upload, Endpoint, parse,
  ingest, job, documents, remove, upload, uploads, remove_upload, handle, parsed, max_doc_bytes,
}

module _ (w : Services) (user : String) where
  abbrev pub IsAdmin : Type 0
  IsAdmin = (is_sandbox user ≡ false) × (w.is_admin user ≡ some true)

  -- The caller's own scope, or the shared one of an admin.
  abbrev pub IsOwner : String → Type 0
  IsOwner owner = (owner ≡ user) ⊎ ((owner ≡ global_owner) × IsAdmin)

  -- Documents are the caller's own, who is signed in; the knowledge base is written in a scope that is
  -- the caller's to write; the upload folder is for admins.
  abbrev pub IsAllowed : Effect → Type 0
  IsAllowed (fetched owner doc) = (is_sandbox user ≡ false) × (owner ≡ user)
  IsAllowed (stored_text owner doc text) = (is_sandbox user ≡ false) × (owner ≡ user)
  IsAllowed (ingested owner name content replaces) = (is_sandbox user ≡ false) × IsOwner owner
  IsAllowed (deleted doc owner) = (is_sandbox user ≡ false) × IsOwner owner
  IsAllowed (read_job id owner) = owner ≡ user
  IsAllowed (listed owner) = (is_sandbox user ≡ false) × (owner ≡ user)
  IsAllowed (saved_upload name) = IsAdmin
  IsAllowed listed_uploads = IsAdmin
  IsAllowed (deleted_upload name) = IsAdmin

  abbrev pub AllAllowed : List Effect → Type 0
  AllAllowed [] = Unit
  AllAllowed (e ∷ es) = IsAllowed e × AllAllowed es

  abbrev IsSafe : Handled → Type 0
  IsSafe h = AllAllowed h.1

  admin-IsAdmin : admin w user ≡ true → w.is_admin user ≡ some true
  admin-IsAdmin h = elim (Option-cases (w.is_admin user)) [
    | inl e ↦ ground arith
    | inr (b, e) ↦ ground arith
  ]

  module _ (signed_in : is_sandbox user ≡ false) where
    parse_original-IsSafe :
        (doc name : String) (f : Option File) → IsSafe (parse_original w user doc name f)
    parse_original-IsSafe doc name none = ((signed_in, refl), tt)
    parse_original-IsSafe doc name (some f) =
        if_cases IsSafe (ltb max_doc_bytes f.size) (λ _. ((signed_in, refl), tt))
          λ _. parsed-IsSafe doc (w.parse_document f name)
      where
        parsed-IsSafe :
            (doc : String) (text : Option String)
            → IsSafe (parsed w user doc (fetched user doc ∷ []) text)
        parsed-IsSafe doc none = ((signed_in, refl), tt)
        parsed-IsSafe doc (some text) = ((signed_in, refl), ((signed_in, refl), tt))

    ingest_result-IsSafe :
        (before : List Effect) (result : Option String)
        → AllAllowed before
        → IsSafe (ingest_result w before result)
    ingest_result-IsSafe before none h = h
    ingest_result-IsSafe before (some result) h = h

    ingest_file-IsSafe :
        (doc name : String) (replaces : Option String) (owner : String) (f : Option File)
        → IsOwner owner
        → IsSafe (ingest_file w user doc name replaces owner f)
    ingest_file-IsSafe doc name replaces owner none o = ((signed_in, refl), tt)
    ingest_file-IsSafe doc name replaces owner (some f) o =
        if_cases IsSafe (ltb max_doc_bytes f.size) (λ _. ((signed_in, refl), tt))
          λ _.
            ingest_result-IsSafe _ (w.ingest owner name f replaces)
              ((signed_in, refl), ((signed_in, o), tt))

    delete_result-IsSafe :
        (doc : String) (before : List Effect) (ok : Option Bool)
        → AllAllowed before
        → IsSafe (delete_result w doc before ok)
    delete_result-IsSafe doc before none h = h
    delete_result-IsSafe doc before (some ok) h = if_cases IsSafe ok (λ _. h) (λ _. h)

  read_result-IsSafe :
      (before : List Effect) (result : Option String)
      → AllAllowed before
      → IsSafe (read_result w before result)
  read_result-IsSafe before none h = h
  read_result-IsSafe before (some result) h = h

  upload_result-IsSafe :
      (failure : String) (u : Upload) (before : List Effect)
      → AllAllowed before
      → IsSafe (upload_result w failure u before)
  upload_result-IsSafe failure (stored result) before h = h
  upload_result-IsSafe failure (upload_error status) before h = h
  upload_result-IsSafe failure crashed before h = h

  unless_refused-IsSafe :
      (o : Option Response) (h : Handled) → (o ≡ none → IsSafe h) → IsSafe (unless_refused w o h)
  unless_refused-IsSafe none h f = f refl
  unless_refused-IsSafe (some refusal) h f = tt

  require_admin-IsAdmin : require_admin w user ≡ none → IsAdmin
  unfolding require_admin
  require_admin-IsAdmin e = (ground arith, admin-IsAdmin (ground arith))

  -- Whatever an endpoint is asked and whatever the back ends answer, every call that it makes stays
  -- with what its caller may touch: documents and their texts under the caller's own id and only for
  -- a signed-in caller, the knowledge base under the caller's id or, for an admin, the shared scope,
  -- and the upload folder for an admin only, an admin being one whose flag was read and is set.
  pub handle-AllAllowed : (e : Endpoint) → AllAllowed (handle w user e).1
  unfolding handle parse_document_endpoint kb_ingest kb_job kb_documents kb_delete_document
      upload_file list_uploads delete_upload
  handle-AllAllowed (parse doc name) =
      if_cases IsSafe (is_sandbox user) (λ _. tt)
        (λ s. parse_original-IsSafe s doc name (w.fetch_original user doc))
  handle-AllAllowed (ingest scope doc name replaces) =
      if_cases IsSafe (is_sandbox user) (λ _. tt)
        λ s.
          if_cases IsSafe (str_eq scope "global")
            (λ _.
              if_cases IsSafe (admin w user)
                (λ a.
                  ingest_file-IsSafe s doc name replaces global_owner (w.fetch_original user doc)
                    (inr (refl, (s, admin-IsAdmin a))))
                (λ _. tt))
            (λ _.
              ingest_file-IsSafe s doc name replaces user (w.fetch_original user doc) (inl refl))
  handle-AllAllowed (job id) = read_result-IsSafe _ (w.get_job id user) (refl, tt)
  handle-AllAllowed documents =
      if_cases IsSafe (is_sandbox user) (λ _. tt)
        λ s. read_result-IsSafe _ (w.list_documents user) ((s, refl), tt)
  handle-AllAllowed (remove doc scope) =
      if_cases IsSafe (is_sandbox user) (λ _. tt)
        λ s.
          if_cases IsSafe (str_eq scope "global")
            (λ _.
              if_cases IsSafe (admin w user)
                (λ a.
                  delete_result-IsSafe s doc _ (w.delete_document doc global_owner)
                    ((s, inr (refl, (s, admin-IsAdmin a))), tt))
                (λ _. tt))
            (λ _. delete_result-IsSafe s doc _ (w.delete_document doc user) ((s, inl refl), tt))
  handle-AllAllowed (upload header) = unless_refused-IsSafe (require_admin w user) _ λ a.
      if_cases IsSafe (is_empty (strip is_space (codes (w.unquote header)))) (λ _. tt)
        λ _.
          upload_result-IsSafe "upload failed" (w.store_stream (w.unquote header)) _
            (require_admin-IsAdmin a, tt)
  handle-AllAllowed uploads = unless_refused-IsSafe (require_admin w user) _ λ a.
      upload_result-IsSafe "could not read the upload folder" w.list_uploads _
        (require_admin-IsAdmin a, tt)
  handle-AllAllowed (remove_upload name) = unless_refused-IsSafe (require_admin w user) _ λ a.
      upload_result-IsSafe "delete failed" (named w name (w.delete_upload (w.unquote name))) _
        (require_admin-IsAdmin a, tt)
