-- ===== src/Attachments/Looked.antt =====
-- tools/attachments.py: what a second look at an attachment reads.
use core_heartbeat.Prelude.{String, true, ◌≡◌, some, [], ◌∷◌}
use core_heartbeat.Untrusted.{Text}
use core_heartbeat.Attachments.{
  Docs, Read, rows_of_ids, rows_of_chat, object_at, key, type_in, fetch_content_types, media_type,
  is_image,
}

module _ (d : Docs) (user doc : String) where
  -- The user's own row for the id, or the user's own original, where that row has an image type.
  abbrev pub IsLook : Read → Type 0
  IsLook (rows_of_ids u ids) = (u ≡ user) × (ids ≡ doc ∷ [])
  IsLook (rows_of_chat u chat) = ⊥
  IsLook (object_at k) =
      (k ≡ key user doc "original")
      × (media : Text) × (type_in (fetch_content_types d user (doc ∷ [])) doc ≡ some media)
      × (is_image (media_type (some media)) ≡ true)
