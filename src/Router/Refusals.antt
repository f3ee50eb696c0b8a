-- ===== src/Router/Refusals.antt =====
-- How an endpoint of router.py refuses a caller.
use mathlib.Core.Path.{subst}
use core_heartbeat.Prelude.{
  String, ◌≡◌, refl, ℕ, Bool, true, false, [], arith, str_eq, Option, some, none, not, ◌&&◌,
  Bool-cases, inl, inr, if◌then◌else◌, some_inj, sym, ap, ◌∙◌,
}
use core_heartbeat.Router.{
  Services, Endpoint, parse, ingest, job, documents, remove, upload, uploads, remove_upload, handle,
  Handled, is_sandbox, or_false, parse_document_endpoint, kb_ingest, kb_job, kb_documents,
  kb_delete_document, require_admin, upload_file, list_uploads, delete_upload,
}

-- The endpoints for documents and files that look at the caller: all of them but the poll of a job.
abbrev pub is_guarded : Endpoint → Bool
is_guarded (job id) = false
is_guarded _ = true

-- What only an admin may ask for.
abbrev pub needs_admin : Endpoint → Bool
needs_admin (parse doc name) = false
needs_admin (ingest scope doc name replaces) = str_eq scope "global"
needs_admin (job id) = false
needs_admin documents = false
needs_admin (remove doc scope) = str_eq scope "global"
needs_admin (upload header) = true
needs_admin uploads = true
needs_admin (remove_upload name) = true

-- The status of the refusal, and no call to the parser, the knowledge base or the upload folder.
abbrev pub IsRefusal : ℕ → Handled → Type 0
IsRefusal status h = (h.0.status ≡ status) × (h.1 ≡ [])

decided :
    (b : Bool) (n status : ℕ)
    → (if b then some n else none) ≡ some status
    → (b ≡ true) × (n ≡ status)
decided true n status e = (refl, some_inj e)
decided false n status e = ground arith

module _ (w : Services) (user : String) where
  -- The sandbox user gets a 401 from every such endpoint but the poll of a job.
  sandbox_refused :
      (e : Endpoint)
      → is_sandbox user ≡ true
      → is_guarded e ≡ true
      → IsRefusal 401 (handle w user e)
  unfolding handle parse_document_endpoint kb_ingest kb_job kb_documents kb_delete_document
      upload_file list_uploads delete_upload require_admin
  sandbox_refused (parse doc name) s g = rw s (refl, refl)
  sandbox_refused (ingest scope doc name replaces) s g = rw s (refl, refl)
  sandbox_refused (job id) s g = ground arith
  sandbox_refused documents s g = rw s (refl, refl)
  sandbox_refused (remove doc scope) s g = rw s (refl, refl)
  sandbox_refused (upload header) s g = rw s (refl, refl)
  sandbox_refused uploads s g = rw s (refl, refl)
  sandbox_refused (remove_upload name) s g = rw s (refl, refl)

  -- A signed-in caller whose admin flag is not set, or cannot be read, gets a 403 for what needs an
  -- admin.
  non_admin_refused :
      (e : Endpoint)
      → is_sandbox user ≡ false
      → or_false (w.is_admin user) ≡ false
      → needs_admin e ≡ true
      → IsRefusal 403 (handle w user e)
  unfolding handle parse_document_endpoint kb_ingest kb_job kb_documents kb_delete_document
      upload_file list_uploads delete_upload require_admin
  non_admin_refused (parse doc name) s a g = ground arith
  non_admin_refused (ingest scope doc name replaces) s a g = rw (s, a, g) (refl, refl)
  non_admin_refused (job id) s a g = ground arith
  non_admin_refused documents s a g = ground arith
  non_admin_refused (remove doc scope) s a g = rw (s, a, g) (refl, refl)
  non_admin_refused (upload header) s a g = rw (s, a) (refl, refl)
  non_admin_refused uploads s a g = rw (s, a) (refl, refl)
  non_admin_refused (remove_upload name) s a g = rw (s, a) (refl, refl)

  -- The status of the refusal that the caller is due for an endpoint, if any.
  abbrev pub due_if : Bool → Endpoint → Option ℕ
  due_if sandboxed e =
      if sandboxed
      then (if is_guarded e then some 401 else none)
      else if not (or_false (w.is_admin user)) && needs_admin e
      then some 403
      else none

  abbrev pub due_refusal : Endpoint → Option ℕ
  due_refusal e = due_if (is_sandbox user) e

  sandbox_due :
      (e : Endpoint) (status : ℕ)
      → is_sandbox user ≡ true
      → due_refusal e ≡ some status
      → (is_guarded e ≡ true) × (401 ≡ status)
  sandbox_due e status s d = decided (is_guarded e) 401 status (sym (ap (λ b. due_if b e) s) ∙ d)

  admin_due :
      (e : Endpoint) (status : ℕ)
      → is_sandbox user ≡ false
      → due_refusal e ≡ some status
      → (or_false (w.is_admin user) ≡ false) × (needs_admin e ≡ true) × (403 ≡ status)
  admin_due e status s d =
      let (test, same) =
        decided (not (or_false (w.is_admin user)) && needs_admin e) 403 status
          (sym (ap (λ b. due_if b e) s) ∙ d) in
      (ground (arith, test), ground (arith, test), same)

  -- Of the endpoints for documents and files: the sandbox user gets a 401 from parsing, ingesting,
  -- listing and deleting a document and from uploading, listing and deleting a file, and a signed-in
  -- caller whose admin flag is not set, or cannot be read, a 403 for a global document and for the
  -- uploaded files. In both cases neither the document parser, the knowledge base nor the upload folder
  -- has been called.
  pub caller_refused :
      (e : Endpoint) (status : ℕ) → due_refusal e ≡ some status → IsRefusal status (handle w user e)
  caller_refused e status d = elim (Bool-cases (is_sandbox user)) [
    | inl s ↦
        let (g, same) = sandbox_due e status s d in
        subst (λ n. IsRefusal n (handle w user e)) same (sandbox_refused e s g)
    | inr s ↦
        let (a, g, same) = admin_due e status s d in
        subst (λ n. IsRefusal n (handle w user e)) same (non_admin_refused e s a g)
  ]
