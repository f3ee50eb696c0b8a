-- ===== src/Router.antt =====
-- router.py: the endpoints that act on documents, the knowledge base and the upload folder. What the
-- back ends do is a parameter; a handler returns its response with the calls that it has made.
pub mod Intent
pub mod Owners
pub mod Refusals
pub mod Tests
use core_heartbeat.Prelude.{
  ℕ, ◌*◌, String, Bool, true, false, not, Option, none, some, List, [], ◌∷◌, ◌++◌, ltb, str_eq,
  is_empty, codes, is_space, strip, if◌then◌else◌,
}
use core_heartbeat.Auth.{sandbox_user_id}
use core_heartbeat.Kb.{global_owner}

abbrev pub max_doc_bytes : ℕ
max_doc_bytes = 20 * 1024 * 1024

pub record File : Type 0 where
  pub content : String
  pub size : ℕ

-- What an upload service returns: a result, an UploadError with its status, or another exception.
pub data Upload : Type 0 where
  stored : String → Upload
  upload_error : ℕ → Upload
  crashed : Upload

pub record Services : Type 0 where
  -- `kbstore.is_admin`, `docstore.fetch_original`, `parse_document`: none where they raise
  pub is_admin : String → Option Bool
  pub fetch_original : String → String → Option File
  pub parse_document : File → String → Option String
  -- the knowledge-base service: none where it raises
  pub ingest : String → String → File → Option String → Option String
  pub delete_document : String → String → Option Bool
  pub get_job : String → String → Option String
  pub list_documents : String → Option String
  -- the upload folder, and `urllib.parse.unquote`
  pub store_stream : String → Upload
  pub list_uploads : Upload
  pub delete_upload : String → Upload
  pub unquote : String → String

-- A call to a back end that reads or writes what some owner has.
pub data Effect : Type 0 where
  fetched : String → String → Effect
  stored_text : String → String → String → Effect
  ingested : String → String → String → Option String → Effect
  deleted : String → String → Effect
  read_job : String → String → Effect
  listed : String → Effect
  saved_upload : String → Effect
  listed_uploads : Effect
  deleted_upload : String → Effect

-- A response by its status and its text.
pub record Response : Type 0 where
  pub status : ℕ
  pub text : String

abbrev pub Handled : Type 0
Handled = Response × List Effect

abbrev pub reply : ℕ → String → List Effect → Handled
reply status text effects = (record { status = status; text = text }, effects)

abbrev pub is_sandbox : String → Bool
is_sandbox user = str_eq user sandbox_user_id

-- `try: admin = await is_admin(user) except Exception: admin = False`
abbrev pub or_false : Option Bool → Bool
or_false none = false
or_false (some b) = b

module _ (w : Services) where
  abbrev pub admin : String → Bool
  admin user = or_false (w.is_admin user)

  -- `parse_document_endpoint`
  abbrev parsed : String → String → List Effect → Option String → Handled
  parsed user doc before none = reply 200 "error" before
  parsed user doc before (some text) =
      reply 200 "ready" (before ++ (stored_text user doc text ∷ []))

  abbrev parse_original : String → String → String → Option File → Handled
  parse_original user doc name none = reply 200 "error" (fetched user doc ∷ [])
  parse_original user doc name (some f) =
      if ltb max_doc_bytes f.size
      then reply 200 "error" (fetched user doc ∷ [])
      else parsed user doc (fetched user doc ∷ []) (w.parse_document f name)

  unfoldable pub parse_document_endpoint : String → String → String → Handled
  parse_document_endpoint user doc name =
      if is_sandbox user
      then reply 401 "authentication required" []
      else parse_original user doc name (w.fetch_original user doc)

  -- The end of `kb_ingest`, from the owner on.
  abbrev ingest_result : List Effect → Option String → Handled
  ingest_result before none = reply 502 "knowledge base ingest failed" before
  ingest_result before (some result) = reply 200 result before

  abbrev ingest_file : String → String → String → Option String → String → Option File → Handled
  ingest_file user doc name replaces owner none =
      reply 404 "original file not found" (fetched user doc ∷ [])
  ingest_file user doc name replaces owner (some f) =
      if ltb max_doc_bytes f.size
      then reply 413 "file exceeds the 20 MB limit" (fetched user doc ∷ [])
      else ingest_result (fetched user doc ∷ ingested owner name f.content replaces ∷ [])
          (w.ingest owner name f replaces)

  abbrev ingest_as : String → String → String → Option String → String → Handled
  ingest_as user doc name replaces owner =
      ingest_file user doc name replaces owner (w.fetch_original user doc)

  unfoldable pub kb_ingest : String → String → String → String → Option String → Handled
  kb_ingest user scope doc name replaces =
      if is_sandbox user
      then reply 401 "authentication required for the knowledge base" []
      else if str_eq scope "global"
      then (if admin user
          then ingest_as user doc name replaces global_owner
          else reply 403 "admin required to add global documents" [])
      else ingest_as user doc name replaces user

  abbrev read_result : List Effect → Option String → Handled
  read_result before none = reply 502 "knowledge base unavailable" before
  read_result before (some result) = reply 200 result before

  -- This endpoint alone serves the sandbox user too.
  unfoldable pub kb_job : String → String → Handled
  kb_job user job = read_result (read_job job user ∷ []) (w.get_job job user)

  unfoldable pub kb_documents : String → Handled
  kb_documents user =
      if is_sandbox user
      then reply 401 "authentication required for the knowledge base" []
      else read_result (listed user ∷ []) (w.list_documents user)

  abbrev delete_result : String → List Effect → Option Bool → Handled
  delete_result doc before none = reply 502 "knowledge base unavailable" before
  delete_result doc before (some ok) =
      if ok then reply 200 doc before else reply 404 "document not found or not permitted" before

  abbrev delete_as : String → String → Handled
  delete_as doc owner = delete_result doc (deleted doc owner ∷ []) (w.delete_document doc owner)

  unfoldable pub kb_delete_document : String → String → String → Handled
  kb_delete_document user doc scope =
      if is_sandbox user
      then reply 401 "authentication required for the knowledge base" []
      else if str_eq scope "global"
      then (if admin user
          then delete_as doc global_owner
          else reply 403 "admin required to delete global documents" [])
      else delete_as doc user

  -- `_require_admin`: none when the caller may use the upload folder, else the refusal.
  unfoldable pub require_admin : String → Option Response
  require_admin user =
      if is_sandbox user
      then some (record { status = 401; text = "authentication required for file uploads" })
      else if admin user
      then none
      else some (record { status = 403; text = "admin required for file uploads" })

  abbrev unless_refused : Option Response → Handled → Handled
  unless_refused none handled = handled
  unless_refused (some refusal) handled = (refusal, [])

  abbrev upload_result : String → Upload → List Effect → Handled
  upload_result failure (stored result) before = reply 200 result before
  upload_result failure (upload_error status) before = reply status "upload error" before
  upload_result failure crashed before = reply 500 failure before

  -- The response of a deletion names the file.
  abbrev named : String → Upload → Upload
  named name (stored result) = stored name
  named name (upload_error status) = upload_error status
  named name crashed = crashed

  -- The name is the header `X-Upload-Filename`, empty where it is absent.
  abbrev named_upload : String → Handled
  named_upload name =
      if is_empty (strip is_space (codes name))
      then reply 400 "X-Upload-Filename is required" []
      else upload_result "upload failed" (w.store_stream name) (saved_upload name ∷ [])

  unfoldable pub upload_file : String → String → Handled
  unfolding require_admin
  upload_file user header = unless_refused (require_admin user) (named_upload (w.unquote header))

  unfoldable pub list_uploads : String → Handled
  unfolding require_admin
  list_uploads user =
      unless_refused (require_admin user)
        (upload_result "could not read the upload folder" w.list_uploads (listed_uploads ∷ []))

  unfoldable pub delete_upload : String → String → Handled
  unfolding require_admin
  delete_upload user name = unless_refused (require_admin user) (
      upload_result "delete failed" (named name (w.delete_upload (w.unquote name)))
        (deleted_upload (w.unquote name) ∷ []))

-- The requests to these endpoints.
pub data Endpoint : Type 0 where
  parse : String → String → Endpoint
  ingest : String → String → String → Option String → Endpoint
  job : String → Endpoint
  documents : Endpoint
  remove : String → String → Endpoint
  upload : String → Endpoint
  uploads : Endpoint
  remove_upload : String → Endpoint

unfoldable pub handle : Services → String → Endpoint → Handled
unfolding parse_document_endpoint kb_ingest kb_job kb_documents kb_delete_document upload_file
    list_uploads delete_upload
handle w user (parse doc name) = parse_document_endpoint w user doc name
handle w user (ingest scope doc name replaces) = kb_ingest w user scope doc name replaces
handle w user (job id) = kb_job w user id
handle w user documents = kb_documents w user
handle w user (remove doc scope) = kb_delete_document w user doc scope
handle w user (upload header) = upload_file w user header
handle w user uploads = list_uploads w user
handle w user (remove_upload name) = delete_upload w user name
