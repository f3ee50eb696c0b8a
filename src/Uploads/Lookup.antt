-- ===== src/Uploads/Lookup.antt =====
-- Finding files of the upload folder after one has been written or removed.
use core_heartbeat.Prelude.{
  ◌≡◌, refl, sym, ◌∙◌, true, false, none, some, [], ◌∷◌, arith, Bool-cases, inl, inr,
}
use core_heartbeat.Uploads.Folder.{FilePath, File, Store, Mount, find, remove, put}

-- Taking two paths for one is an equivalence.
pub record IsSameness (m : Mount) : Type 0 where
  pub itself : (p : FilePath) → m.same p p ≡ true
  pub swapped : (p q : FilePath) → m.same p q ≡ true → m.same q p ≡ true
  pub chained : (p q r : FilePath) → m.same p q ≡ true → m.same q r ≡ true → m.same p r ≡ true

module _ (m : Mount) (e : IsSameness m) where
  -- Paths that are taken for one agree on a third.
  alike : (p q r : FilePath) → m.same q r ≡ true → m.same p q ≡ m.same p r
  alike p q r qr = elim (Bool-cases (m.same p q)) [
    | inl pq ↦ pq ∙ sym (e.chained p q r pq qr)
    | inr pq ↦ elim (Bool-cases (m.same p r)) [
      | inl pr ↦ ground (arith, pq, e.chained p r q pr (e.swapped q r qr))
      | inr pr ↦ pq ∙ sym pr
    ]
  ]

  pub find-alike : (p q : FilePath) (st : Store) → m.same p q ≡ true → find m p st ≡ find m q st
  find-alike p q [] pq = refl
  find-alike p q ((r, f) ∷ st) pq = ground (arith, alike r p q pq, find-alike p q st pq)

  pub find-remove :
      (p q : FilePath) (st : Store) → m.same q p ≡ true → find m p (remove m q st) ≡ none
  find-remove p q [] qp = refl
  find-remove p q ((r, f) ∷ st) qp = ground (arith, alike r q p qp, find-remove p q st qp)

  pub find-remove_other :
      (p q : FilePath) (st : Store) → m.same q p ≡ false → find m p (remove m q st) ≡ find m p st
  find-remove_other p q [] qp = refl
  find-remove_other p q ((r, f) ∷ st) qp =
      ground (arith, qp, e.swapped r q, e.chained q r p, find-remove_other p q st qp)

  pub find-put :
      (p q : FilePath) (f : File) (st : Store)
      → m.same q p ≡ true
      → find m p (put m q f st) ≡ some f
  find-put p q f st qp = ground (arith, qp)

  pub find-put_other :
      (p q : FilePath) (f : File) (st : Store)
      → m.same q p ≡ false
      → find m p (put m q f st) ≡ find m p st
  find-put_other p q f st qp = ground (arith, qp, find-remove_other p q st qp)

  pub find-remove-none :
      (p q : FilePath) (st : Store) → find m p st ≡ none → find m p (remove m q st) ≡ none
  find-remove-none p q [] h = refl
  find-remove-none p q ((r, f) ∷ st) h = ground (arith, h, find-remove-none p q st)
