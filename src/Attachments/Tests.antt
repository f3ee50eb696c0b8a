-- ===== src/Attachments/Tests.antt =====
-- Runs over the attachments of a turn, and the witnesses of the theorems on them.
use core_heartbeat.Prelude.{String, ◌≡◌, refl, none, some, List, [], ◌∷◌, length, codes}
use core_heartbeat.Attachments.{Docs, DocRow, media_type, load_document_images}
use core_heartbeat.Attachments.Reread.{Args}

abbrev row : String → DocRow
row id = record { id = id; filename = none; content_type = some (codes "Image/PNG; q=1") }

-- Every document is an image, and every object is there.
abbrev docs : Docs
docs = record {
  rows_by_ids = λ user ids. row "a" ∷ row "b" ∷ row "c" ∷ row "d" ∷ [];
  rows_by_chat = λ user chat. [];
  object = λ k. some (codes "x");
  prepared = λ raw. some (raw, codes "image/png");
}

type_read : media_type (some (codes " Image/PNG ; q=1")) ≡ codes "image/png"
unfolding media_type
type_read = refl

abbrev four : List String
four = "a" ∷ "b" ∷ "c" ∷ "d" ∷ []

three_shown : length (load_document_images docs "ana" four).0 ≡ 3
unfolding load_document_images media_type
three_shown = refl

abbrev question : Args
question = record { doc_id = "a"; question = codes "which day?" }
