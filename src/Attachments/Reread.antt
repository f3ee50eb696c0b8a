-- ===== src/Attachments/Reread.antt =====
-- tools/attachments.py: an attachment looked at again.
use core_heartbeat.Prelude.{
  ℕ, String, Option, none, some, List, [], ◌∷◌, ◌++◌, any, codes, is_empty, same_codes, str_eq,
  take, if◌then◌else◌,
}
use core_heartbeat.Untrusted.{Text, Unicode, wrap}
use core_heartbeat.Attachments.{
  Docs, Read, object_at, key, type_in, fetch_content_types, types_read, media_type, is_image, Image,
  prepare_from_storage,
}

abbrev pub max_answer_chars : ℕ
max_answer_chars = 4000

-- The two arguments, stripped; an id is a whole text.
pub record Args : Type 0 where
  pub doc_id : String
  pub question : Text

-- What the vision model does: no key or an empty answer, another exception, or a text.
pub data Vision : Type 0 where
  not_answered : Vision
  raised : Vision
  answer : Text → Vision

pub data Reply : Type 0 where
  needs_doc_id needs_question unknown_attachment : Reply
  not_viewable : Text → Reply
  not_an_image : Text → Reply
  not_opened not_examined vision_error : Reply
  reading : Text → Reply

abbrev pub unviewable_media_types : List String
unviewable_media_types =
    "image/webp" ∷ "image/heic" ∷ "image/heif" ∷ "image/avif" ∷ "image/gif" ∷ "image/tiff" ∷ []

abbrev pub refused_media : Text → Reply
refused_media media =
    if any (λ t. same_codes media (codes t)) unviewable_media_types
    then not_viewable media
    else not_an_image media

module _ (u : Unicode) (nonce preamble : Text) (d : Docs) (vision : Image → Text → Vision) where
  -- `text[:MAX_ANSWER_CHARS]`, fenced.
  abbrev pub replied : Vision → Reply
  replied not_answered = vision_error
  replied raised = not_examined
  replied (answer text) =
      reading (
        wrap u nonce (codes "IMAGE READING") max_answer_chars preamble (take max_answer_chars text))

  abbrev pub looked_at : Text → Option Image → Reply
  looked_at question none = not_opened
  looked_at question (some image) = replied (vision image question)

  abbrev pub by_type : String → Args → Option Text → Reply × List Read
  by_type user args none = (unknown_attachment, [])
  by_type user args (some media) =
      if is_image (media_type (some media))
      then (
        looked_at args.question (prepare_from_storage d user args.doc_id),
        object_at (key user args.doc_id "original") ∷ [],
      )
      else (refused_media (media_type (some media)), [])

  -- `reread_attachment`
  unfoldable pub reread_attachment : String → Args → Reply × List Read
  unfolding is_image media_type
  reread_attachment user args =
      if str_eq args.doc_id ""
      then (needs_doc_id, [])
      else if is_empty args.question
      then (needs_question, [])
      else (let ids = args.doc_id ∷ [] in
          let (reply, reads) =
            by_type user args (type_in (fetch_content_types d user ids) args.doc_id) in
          (reply, types_read user ids ++ reads))
