-- ===== src/Execute/Verdict/Backups.antt =====
-- What `backup` stores.
use the_soverign_imperia_cit.Base.{
  String, ◌≡◌, refl, ◌≤◌, ◌+◌, [], ◌∷◌, none, some, length, arith, Option-cases, inl, inr, eq_iff,
}
use the_soverign_imperia_cit.Base.Dict
use the_soverign_imperia_cit.Base.Dict.{Dict}
use the_soverign_imperia_cit.Base.Text.{Text}
use the_soverign_imperia_cit.Execute.Verdict.{LedgerRoot, VerdictLedger, store_blob, backup}

-- Every blob stands under its own digest.
abbrev pub AreAddressed : (Text → String) → Dict Text → Type 0
AreAddressed digest blobs = (d : String) (b : Text) → Dict.get blobs d ≡ some b → digest b ≡ d

unfoldable pub blobs_of : VerdictLedger → Dict Text
blobs_of l = elim l.root [ none ↦ [] | some r ↦ r.pre_images ]

length-put :
    (blobs : Dict Text) (d : String) (b : Text) → length (Dict.put blobs d b) ≤ length blobs + 1
unfolding Dict.put
length-put [] d b = omega arith
length-put ((e, c) ∷ blobs) d b = ground (arith, length-put blobs d b)

-- What a store does: the blob is there, under its digest, and no other name changes.
abbrev pub StoredAs : (Text → String) → Dict Text → Dict Text → Text → Type 0
StoredAs digest before after content =
    ((b : Text) × (Dict.get after (digest content) ≡ some b) × (digest b ≡ digest content))
    × ((e : String) (b : Text) → Dict.get before e ≡ some b → Dict.get after e ≡ some b)
    × (length after ≤ length before + 1)
    × AreAddressed digest after

module _ (digest : Text → String) (blobs : Dict Text) (content : Text) where
  store_new :
      Dict.get blobs (digest content) ≡ none
      → store_blob blobs (digest content) content ≡ Dict.put blobs (digest content) content
  unfolding store_blob
  store_new e = rw (e, store_blob) refl

  store_old :
      (b : Text)
      → Dict.get blobs (digest content) ≡ some b
      → store_blob blobs (digest content) content ≡ blobs
  unfolding store_blob
  store_old b e = rw (e, store_blob) refl

  put-AreAddressed :
      AreAddressed digest blobs → AreAddressed digest (Dict.put blobs (digest content) content)
  put-AreAddressed h d b g =
      ground
        (arith, Dict.get-put blobs (digest content) d content, eq_iff (digest content) d, h d b)

  store_blob-StoredAs :
      AreAddressed digest blobs
      → StoredAs digest blobs (store_blob blobs (digest content) content) content
  store_blob-StoredAs h = elim (Option-cases (Dict.get blobs (digest content))) [
    | inl e ↦ rw (store_new e) (
      (
        content,
        ground (
          arith,
          Dict.get-put blobs (digest content) (digest content) content,
          eq_iff (digest content) (digest content),
        ),
        refl,
      ),
      (λ d b g.
          ground (arith, Dict.get-put blobs (digest content) d content, eq_iff (digest content) d)),
      length-put blobs (digest content) content,
      put-AreAddressed h,
    )
    | inr (b, e) ↦ rw (store_old b e) ((b, e, h (digest content) b e), (λ d c g. g), omega arith, h)
  ]

-- In a ledger with a root whose blobs stand under their digests, the backup of a file that is there
-- returns the digest of its content; a blob of that digest is stored under it, every older blob is
-- kept as it was, at most one blob is added, and all still stand under their digests.
pub backup-StoredAs :
    (digest : Text → String) (l : VerdictLedger) (r : LedgerRoot) (content : Text)
    → l.root ≡ some r
    → AreAddressed digest r.pre_images
    → ((backup digest l (some content)).1 ≡ some (digest content))
      × StoredAs digest r.pre_images (blobs_of (backup digest l (some content)).0) content
unfolding backup blobs_of
backup-StoredAs digest l r content e h =
    rw e (refl, store_blob-StoredAs digest r.pre_images content h)
