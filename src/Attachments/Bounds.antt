-- ===== src/Attachments/Bounds.antt =====
-- What a turn reads of its attachments, and how much of them it gives to a model.
use core_heartbeat.Prelude.{
  ℕ, ◌≤◌, String, true, ◌≡◌, Option, none, some, List, [], All, take, length, one_of, ◌⊎◌, codes,
}
use core_heartbeat.Untrusted.{Text, Unicode, wrap}
use core_heartbeat.Attachments.{
  Docs, DocRow, Read, rows_of_ids, rows_of_chat, object_at, key, type_in, media_type, is_image,
  max_docs_per_turn, Image, load_documents, load_document_images, load_attachment_manifest,
  fetch_content_types, max_images_per_turn, max_attachments_listed, doc_char_budget,
}

-- A read for the user: the rows of the table for exactly the given ids, or those of the given chat,
-- or an object of a document that is among the ids.
abbrev pub IsOwn : String → Option String → List String → Read → Type 0
IsOwn user chat docs (rows_of_ids u ids) = (u ≡ user) × (ids ≡ docs)
IsOwn user chat docs (rows_of_chat u c) = (u ≡ user) × (chat ≡ some c)
IsOwn user chat docs (object_at k) =
    (doc : String) × (name : String) × (k ≡ key user doc name) × (one_of docs doc ≡ true)

-- An image of a document that the table gives a type that can be shown.
abbrev pub IsViewable : List DocRow → Image → Type 0
IsViewable types i = is_image (media_type (type_in types i.doc_id)) ≡ true

abbrev OfDocument : String → Option Image → Type 0
OfDocument doc none = Unit
OfDocument doc (some i) = i.doc_id ≡ doc

module _ (d : Docs) (user : String) (chat : Option String) (among : List String)
    (types : List DocRow) where
  -- What the loop over the images returns, with the images that may still be added.
  record IsFew (left : ℕ) (r : List Image × List Read) : Type 0 where
    few : length r.0 ≤ left
    viewable : All (IsViewable types) r.0
    own : All (IsOwn user chat among) r.1

-- No text, or one in its fence.
abbrev pub IsFenced : Unicode → Text → Text → Text → Type 0
IsFenced u nonce preamble text =
    (text ≡ [])
    ⊎ ((s : Text) × (text ≡ wrap u nonce (codes "DOCUMENT CONTENT") doc_char_budget preamble s))

module _ (u : Unicode) (d : Docs) (nonce preamble : Text) (user : String) (chat : Option String)
    (ids : List String) where
  -- The ids that a turn looks at.
  abbrev pub first_ids : List String
  first_ids = take max_docs_per_turn ids

  -- What a turn loads for a message with these ids, in this chat.
  pub record IsLoaded : Type 0 where
    pub own_texts : All (IsOwn user none first_ids) (load_documents u d nonce preamble user ids).1
    pub fenced : IsFenced u nonce preamble (load_documents u d nonce preamble user ids).0
    pub own_images : All (IsOwn user none first_ids) (load_document_images d user ids).1
    pub few_images : length (load_document_images d user ids).0 ≤ max_images_per_turn
    pub viewable :
        All (IsViewable (fetch_content_types d user first_ids)) (load_document_images d user ids).0
    pub own_manifest : All (IsOwn user chat first_ids) (load_attachment_manifest d user chat ids).1
    pub short_manifest :
        length (load_attachment_manifest d user chat ids).0 ≤ max_attachments_listed
