-- ===== src/Attachments.antt =====
-- What a turn loads of its attachments: `_load_documents`, `_load_attachment_manifest` and
-- `_load_document_images` of orchestrator.py, and `prepare_from_storage` of services/images.py, over
-- the documents of services/documents.py. A function returns its result and what it has read.
pub mod Reread
pub mod Bounds
pub mod Looked
pub mod Tests
use core_heartbeat.Prelude.{
  concat, ℕ, ◌-◌, String, Bool, Option, none, some, List, [], ◌∷◌, ◌++◌, map, take, length,
  is_empty, ◌==◌, codes, same_codes, str_eq, any, is_space, strip, if◌then◌else◌,
}
use core_heartbeat.Orchestrator.Affirmation.{lower}
use core_heartbeat.Untrusted.{Text, Unicode, wrap}

abbrev pub doc_char_budget : ℕ
doc_char_budget = 12000

abbrev pub max_docs_per_turn : ℕ
max_docs_per_turn = 10

abbrev pub max_attachments_listed : ℕ
max_attachments_listed = 20

abbrev pub max_images_per_turn : ℕ
max_images_per_turn = 3

-- A row of the table of documents that has an id.
pub record DocRow : Type 0 where
  pub id : String
  pub filename : Option Text
  pub content_type : Option Text

-- The table and the bucket. A query that fails gives no rows; an object that is not there none.
-- `prepared` is what `downscale_for_model` makes of the bytes of an image: data and media type.
pub record Docs : Type 0 where
  pub rows_by_ids : String → List String → List DocRow
  pub rows_by_chat : String → String → List DocRow
  pub object : String → Option Text
  pub prepared : Text → Option (Text × Text)

-- What has been read: rows of the table for a user, or an object by its key.
pub data Read : Type 0 where
  rows_of_ids : String → List String → Read
  rows_of_chat : String → String → Read
  object_at : String → Read

-- `_key`
abbrev pub key : String → String → String → String
key user doc name = concat (user ∷ "/" ∷ doc ∷ "/" ∷ name ∷ [])

abbrev pub or_nothing : Option Text → Text
or_nothing none = []
or_nothing (some t) = t

-- `fetch_extracted`
abbrev pub fetch_extracted : Docs → String → String → Text
fetch_extracted d user doc = or_nothing (d.object (key user doc "extracted.txt"))

-- `fetch_content_types`: the id's type in the dict that is made of the rows, where a later row counts.
abbrev pub type_in : List DocRow → String → Option Text
type_in [] doc = none
type_in (r ∷ rs) doc = elim (type_in rs doc) [
  | some t ↦ some t
  | none ↦ if str_eq r.id doc then some (or_nothing r.content_type) else none
]

abbrev pub fetch_content_types : Docs → String → List String → List DocRow
fetch_content_types d user [] = []
fetch_content_types d user (id ∷ ids) = d.rows_by_ids user (id ∷ ids)

-- No query is made for no ids, and none for no chat.
abbrev pub types_read : String → List String → List Read
types_read user [] = []
types_read user (id ∷ ids) = rows_of_ids user (id ∷ ids) ∷ []

-- `(media or "").split(";")[0].strip().lower()`; among the letters of the media types, `lower` makes
-- what `str.lower` makes.
abbrev pub before_semicolon : Text → Text
before_semicolon [] = []
before_semicolon (c ∷ s) = let rest = before_semicolon s in if c == b';' then [] else c ∷ rest

unfoldable pub media_type : Option Text → Text
unfolding is_space
media_type t = lower (strip is_space (before_semicolon (or_nothing t)))

abbrev pub image_media_types : List String
image_media_types = "image/png" ∷ "image/jpeg" ∷ []

unfoldable pub is_image : Text → Bool
is_image media = any (λ t. same_codes media (codes t)) image_media_types

-- The loop of `_load_documents`, with the characters that remain.
abbrev pub truncation_notice : Text
truncation_notice = codes "\n[attached documents truncated to fit the context window]"

abbrev pub joined_with : Text → List Text → Text
joined_with sep [] = []
joined_with sep (t ∷ []) = t
joined_with sep (t ∷ u ∷ ts) = t ++ (sep ++ joined_with sep (u ∷ ts))

unfoldable pub extracts : Docs → String → ℕ → List String → List Text × List Read
extracts d user remaining [] = ([], [])
extracts d user remaining (doc ∷ docs) =
    let text = fetch_extracted d user doc in
    let chunk = take remaining text in
    let left = remaining - length chunk in
    let here = object_at (key user doc "extracted.txt") in
    let (parts, reads) = extracts d user left docs in
    if is_empty text
    then (parts, here ∷ reads)
    else if left == 0
    then (chunk ∷ truncation_notice ∷ [], here ∷ [])
    else (chunk ∷ parts, here ∷ reads)

abbrev pub wrapped : Unicode → Text → Text → List Text → Text
wrapped u nonce preamble [] = []
wrapped u nonce preamble (t ∷ ts) =
    wrap u nonce (codes "DOCUMENT CONTENT") doc_char_budget preamble
      (joined_with (codes "\n\n---\n\n") (t ∷ ts))

-- `_load_documents`, with DOCUMENT_PREAMBLE.
unfoldable pub load_documents :
    Unicode → Docs → Text → Text → String → List String → Text × List Read
unfolding extracts
load_documents u d nonce preamble user ids =
    let (parts, reads) = extracts d user doc_char_budget (take max_docs_per_turn ids) in
    (wrapped u nonce preamble parts, reads)

-- An image for a model.
pub record Image : Type 0 where
  pub media : Text
  pub content : Text
  pub doc_id : String

abbrev pub image_of : String → Option (Text × Text) → Option Image
image_of doc none = none
image_of doc (some (content, media)) =
    some (record { media = media; content = content; doc_id = doc })

abbrev pub prepared_original : Docs → String → Option Text → Option Image
prepared_original d doc none = none
prepared_original d doc (some raw) = image_of doc (d.prepared raw)

-- `prepare_from_storage`, and the same steps in `_load_document_images`
abbrev pub prepare_from_storage : Docs → String → String → Option Image
prepare_from_storage d user doc = prepared_original d doc (d.object (key user doc "original"))

abbrev pub and_image : Option Image → List Image → List Image
and_image none images = images
and_image (some i) images = i ∷ images

abbrev pub room_after : Option Image → ℕ → ℕ
room_after none left = left
room_after (some i) left = left - 1

-- The loop of `_load_document_images`, with the images that may still be added.
unfoldable pub images_from : Docs → List DocRow → String → ℕ → List String → List Image × List Read
unfolding is_image
images_from d types user left [] = ([], [])
images_from d types user left (doc ∷ docs) =
    let shows = is_image (media_type (type_in types doc)) in
    let image = prepare_from_storage d user doc in
    let (images, reads) =
      images_from d types user (if shows then room_after image left else left) docs in
    if left == 0
    then ([], [])
    else if shows
    then (and_image image images, object_at (key user doc "original") ∷ reads)
    else (images, reads)

-- `_load_document_images`
unfoldable pub load_document_images : Docs → String → List String → List Image × List Read
unfolding images_from
load_document_images d user ids =
    let docs = take max_docs_per_turn ids in
    let (images, reads) =
      images_from d (fetch_content_types d user docs) user max_images_per_turn docs in
    (images, types_read user docs ++ reads)

-- An entry of the manifest.
pub record Listed : Type 0 where
  pub id : String
  pub filename : Text
  pub media : Text
  pub viewable : Bool

abbrev pub or_unnamed : Option Text → Text
or_unnamed none = codes "(unnamed)"
or_unnamed (some []) = codes "(unnamed)"
or_unnamed (some (c ∷ name)) = c ∷ name

abbrev pub listed : DocRow → Listed
listed r = record {
  id = r.id;
  filename = or_unnamed r.filename;
  media = media_type r.content_type;
  viewable = is_image (media_type r.content_type);
}

-- The rows of the fallback hold an id of the dict each, once, with its type.
abbrev pub known_ids : List DocRow → List String → List String
known_ids [] seen = []
known_ids (r ∷ rs) seen =
    let fresh = known_ids rs (r.id ∷ seen) in
    let again = known_ids rs seen in if any (λ s. str_eq s r.id) seen then again else r.id ∷ fresh

abbrev pub fallback_rows : List DocRow → List DocRow
fallback_rows rows =
    map (λ id. record { id = id; filename = none; content_type = type_in rows id })
      (known_ids rows [])

abbrev pub chat_rows : Docs → String → Option String → List DocRow × List Read
chat_rows d user none = ([], [])
chat_rows d user (some chat) =
    if str_eq chat "" then ([], []) else (d.rows_by_chat user chat, rows_of_chat user chat ∷ [])

abbrev pub or_message_rows : Docs → String → List String → List DocRow → List DocRow × List Read
or_message_rows d user ids (r ∷ rs) = (r ∷ rs, [])
or_message_rows d user ids [] =
    let docs = take max_docs_per_turn ids in
    (fallback_rows (fetch_content_types d user docs), types_read user docs)

-- `_load_attachment_manifest`
unfoldable pub load_attachment_manifest :
    Docs → String → Option String → List String → List Listed × List Read
unfolding is_image media_type
load_attachment_manifest d user chat ids =
    let (rows, reads) = chat_rows d user chat in
    let (shown, more) = or_message_rows d user ids rows in
    (map listed (take max_attachments_listed shown), reads ++ more)
