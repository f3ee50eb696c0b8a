-- ===== src/Storage/Snapshot.antt =====
-- What services/storage_sync.py leaves of the files that were in the local vault.
use core_heartbeat.Prelude.{
  ℕ, zero, suc, ◌<◌, ◌≡◌, refl, sym, ap, ◌∙◌, Bool, true, false, ◌&&◌, Option, none, some, List, [],
  ◌∷◌, if_cases, arith, same_codes, same_codes_eq, is_some, any, if◌then◌else◌, ◌>>=◌, ◌++◌,
}
use core_heartbeat.Storage.{
  Text, Table, get, set, Local, Remote, local_or_empty, reset_dest, is_note, relative, download_all,
  after_downloads, etags_available, same_listing, sync_listing, list_vault_objects, downloaded,
  preferences, kept_profile, keyed,
}

get-set_other :
    (k j : Text) (v : Text) (t : Table Text) → same_codes k j ≡ false → get j (set k v t) ≡ get j t
get-set_other k j v [] h = ground (arith, h)
get-set_other k j v ((i, u) ∷ t) h =
    if_cases (λ r. get j r ≡ get j ((i, u) ∷ t)) (same_codes i k)
      (λ e. let apart = ap (λ x. same_codes x j) (same_codes_eq i k e) ∙ h in ground (arith, apart))
      (λ _. ground (arith, get-set_other k j v t h))

kept_profile-get :
    (name : Text) (o : Option Text)
    → get name (kept_profile o) ≡ (if same_codes preferences name then o else none)
kept_profile-get name none =
    if_cases (λ o. none ≡ o) (same_codes preferences name) (λ _. refl) (λ _. refl)
kept_profile-get name (some c) = refl

-- Whether a note of the listing has a path in the vault.
abbrev pub has_note : Text → Text → Table (Option Text) → Bool
has_note prefix name listing =
    any (λ (e : Text × Option Text). is_note prefix e.0 && same_codes (relative prefix e.0) name)
      listing

module _ (r : Remote) (prefix : Text) where
  downloaded-other :
      (name path : Text) (later : Table Text → Bool × Table Text) (files files' : Table Text)
      (o : Option Text)
      → ((fs : Table Text) → later fs ≡ (true, files') → get name files' ≡ get name fs)
      → same_codes path name ≡ false
      → downloaded later path files o ≡ (true, files')
      → get name files' ≡ get name files
  downloaded-other name path later files files' none g h e = ground arith
  downloaded-other name path later files files' (some c) g h e =
      g (set path c files) e ∙ get-set_other path name c files h

  -- Downloads leave alone the paths that are no notes of the listing.
  download_all-other :
      (name : Text) (listing : Table (Option Text)) (files files' : Table Text)
      → has_note prefix name listing ≡ false
      → download_all r prefix listing files ≡ (true, files')
      → get name files' ≡ get name files
  unfolding download_all
  download_all-other name [] files files' h e = ap (λ (x : Bool × Table Text). get name x.1) (sym e)
  download_all-other name ((k, t) ∷ listing) files files' h e =
      if_cases (λ (x : Bool × Table Text). x ≡ (true, files') → get name files' ≡ get name files)
        (is_note prefix k)
        (λ note f.
          downloaded-other name (relative prefix k) (λ fs. download_all r prefix listing fs) files
            files' (r.download k)
            (λ fs g. download_all-other name listing fs files' (ground (arith, h)) g)
            (ground (arith, h, note)) f)
        (λ _ f. download_all-other name listing files files' (ground (arith, h)) f) e

  after-other :
      (name : Text) (listing : Table (Option Text)) (s s' : Local) (b : Bool) (files : Table Text)
      → after_downloads listing s (b, files) ≡ (true, s')
      → (b ≡ true) × (get name (local_or_empty s'.files) ≡ get name files)
  after-other name listing s s' true files e =
      (refl, ap (λ (x : Bool × Local). get name (local_or_empty x.1.files)) (sym e))
  after-other name listing s s' false files e = ground arith

  -- When a sync that does not find the listing unchanged returns, a path that is no note of the listing
  -- holds afterwards what the reset has carried over: the user's preferences where it is theirs, and
  -- nothing otherwise, a note that was written locally included.
  pub sync_listing-other :
      (name : Text) (listing : Table (Option Text)) (s s' : Local)
      → (etags_available listing && same_listing listing s.etags && is_some s.files) ≡ false
      → has_note prefix name listing ≡ false
      → sync_listing r prefix listing s ≡ (true, s')
      → get name (local_or_empty s'.files)
        ≡ (if same_codes preferences name then get preferences (local_or_empty s.files) else none)
  unfolding sync_listing reset_dest
  sync_listing-other name listing s s' changed h e =
      let d = download_all r prefix listing (reset_dest s.files) in
      let ran = sym (ap (λ b. if b then (true, s) else after_downloads listing s d) changed) ∙ e in
      let (done, same) = after-other name listing s s' d.0 d.1 ran in
      same
      ∙ (download_all-other name listing (reset_dest s.files) d.1 h (ap (λ b. (b, d.1)) done)
          ∙ kept_profile-get name (get preferences (local_or_empty s.files)))

-- The listing ends with the page that stands so many tokens after one.
abbrev pub EndsIn : ℕ → Remote → Option Text → Type 0
EndsIn zero r token = (r.list_page token).is_truncated ≡ false
EndsIn (suc n) r token = EndsIn n r (r.list_page token).next_token

listed_more :
    (o : Option (List (Text × Option Text))) (xs : List (Text × Option Text))
    → is_some o ≡ true
    → is_some (o >>= λ more. some (xs ++ more)) ≡ true
listed_more none xs h = ground arith
listed_more (some ys) xs h = refl

-- A listing that ends is read in full, on fuel for one page more than there are tokens.
list_vault_objects-ends :
    (n fuel : ℕ) (r : Remote) (token : Option Text)
    → n < fuel
    → EndsIn n r token
    → is_some (list_vault_objects fuel r token) ≡ true
unfolding list_vault_objects
list_vault_objects-ends n zero r token h e = ground (arith, h)
list_vault_objects-ends zero (suc fuel) r token h e = ground (arith, e)
list_vault_objects-ends (suc n) (suc fuel) r token h e =
    if_cases (λ (o : Option (List (Text × Option Text))). is_some o ≡ true)
      (r.list_page token).is_truncated
      (λ _.
        listed_more (list_vault_objects fuel r (r.list_page token).next_token)
          (keyed (r.list_page token).objects)
          (list_vault_objects-ends n fuel r (r.list_page token).next_token (omega (arith, h)) e))
      (λ _. refl)
