-- ===== src/Cache/Memoize/Remembered.antt =====
-- A memo answers what the function computes.
use mathlib.Core.Path.{subst}
use mathlib.Core.Option.{some_inj}
use the_soverign_imperia_cit.Base.{
  String, ◌≡◌, refl, sym, Bool-cases, ap, ◌∙◌, ◌⊎◌, inl, inr, Option, none, some, Option-cases,
  str_eq, eq_iff, arith, if◌then◌else◌,
}
use the_soverign_imperia_cit.Base.Dict
use the_soverign_imperia_cit.Base.Dict.{Dict}
use the_soverign_imperia_cit.Base.Text.{Text}
use the_soverign_imperia_cit.Cache.Ram
use the_soverign_imperia_cit.Cache.Ram.{RamCache}
use the_soverign_imperia_cit.Cache.Ram.Evict.{view}
use the_soverign_imperia_cit.Cache.Ram.Methods.{IsValid, put-IsValid}
use the_soverign_imperia_cit.Cache.Ram.Reads.{get_lem}
use the_soverign_imperia_cit.Cache.Memoize.{
  Memo, Pickle, disk_name, disk_get, disk_put, with_hot, get_blob, put_blob, cached_call,
}

-- No two of the keys that are used have the same file.
abbrev pub IsApart : (String → Type 0) → Type 0
IsApart IsUsed = (k l : String) → IsUsed k → IsUsed l → disk_name k ≡ disk_name l → k ≡ l

module _ (IsUsed : String → Type 0) (blob_of : String → Text) where
  -- The cache is valid, and whatever is kept, in memory or in the file of a key that is used, is the blob of
  -- its key.
  pub record IsHonest (m : Memo) : Type 0 where
    pub valid : IsValid m.hot
    pub hot_blobs : (k : String) (b : Text) → view m.hot.nodes k ≡ some b → b ≡ blob_of k
    pub disk_blobs : (k : String) (b : Text) → IsUsed k → disk_get m.disk k ≡ some b → b ≡ blob_of k

  read-IsHonest :
      (m : Memo) (key : String) → IsHonest m → IsHonest (record m { hot = (Ram.get m.hot key).0 })
  read-IsHonest m key h =
      let (e, s) = get_lem m.hot key h.valid in
      record {
        valid = s.valid;
        hot_blobs = λ k b g. h.hot_blobs k b (sym (s.views k) ∙ g);
        disk_blobs = h.disk_blobs;
      }

  hot-put :
      (m : Memo) (key : String)
      → IsHonest m
      → (m' : Memo) × (with_hot m (Ram.put m.hot key (blob_of key)) ≡ some m') × IsHonest m'
  hot-put m key h =
      let (hot', e, v, es, bs, pv) = put-IsValid m.hot key (blob_of key) h.valid in
      (
        record m { hot = hot' },
        ap (with_hot m) e,
        record {
          valid = v;
          hot_blobs = λ k b g. shown hot' k b (pv k) g;
          disk_blobs = h.disk_blobs;
        },
      )
    where
      some_blob : (k : String) (b : Text) → key ≡ k → some (blob_of key) ≡ some b → b ≡ blob_of k
      some_blob k b e g = sym (some_inj.0 g) ∙ ap blob_of e

      shown :
          (hot' : RamCache) (k : String) (b : Text)
          → (view hot'.nodes k ≡ none)
            ⊎ (view hot'.nodes k
                ≡ (if str_eq key k then some (blob_of key) else view m.hot.nodes k))
          → view hot'.nodes k ≡ some b
          → b ≡ blob_of k
      shown hot' k b (inl n) g = absurd (ground (arith, n, g))
      shown hot' k b (inr o) g = elim (Bool-cases (str_eq key k)) [
        | inl e ↦ some_blob k b ((eq_iff key k).0 e) (sym (o ∙ rw e refl) ∙ g)
        | inr e ↦ h.hot_blobs k b (sym (o ∙ rw e refl) ∙ g)
      ]

  disk-put :
      (m : Memo) (key : String)
      → IsApart IsUsed
      → IsUsed key
      → IsHonest m
      → IsHonest (record m { disk = disk_put m.disk key (blob_of key) })
  disk-put m key apart used h = record {
    valid = h.valid;
    hot_blobs = h.hot_blobs;
    disk_blobs = λ k b u g. written m.disk h.disk_blobs k b u g;
  }
    where
      written :
          (disk : Option (Dict Text))
          → ((k : String) (b : Text) → IsUsed k → disk_get disk k ≡ some b → b ≡ blob_of k)
          → (k : String) (b : Text) → IsUsed k
          → disk_get (disk_put disk key (blob_of key)) k ≡ some b
          → b ≡ blob_of k
      written none d k b u g = d k b u g
      written (some files) d k b u g =
          let found = Dict.get-put files (disk_name key) (disk_name k) (blob_of key) in
          elim (Bool-cases (str_eq (disk_name key) (disk_name k))) [
            | inl e ↦
                sym (some_inj.0 (sym (found ∙ rw e refl) ∙ g))
                ∙ ap blob_of (apart key k used u ((eq_iff (disk_name key) (disk_name k)).0 e))
            | inr e ↦ d k b u (sym (found ∙ rw e refl) ∙ g)
          ]

  read : Memo → String → Memo
  read m key = record m { hot = (Ram.get m.hot key).0 }

  module _ (m : Memo) (key : String) (miss : (Ram.get m.hot key).1 ≡ none) where
    no_blob : disk_get m.disk key ≡ none → get_blob m key ≡ (some (read m key), none)
    unfolding get_blob read
    no_blob d = rw (miss, d, get_blob) refl

    disk_blob :
        (b : Text)
        → disk_get m.disk key ≡ some b
        → get_blob m key ≡ (with_hot (read m key) (Ram.put (read m key).hot key b), some b)
    unfolding get_blob read
    disk_blob b d = rw (miss, d, get_blob) refl

  hot_blob :
      (m : Memo) (key : String) (b : Text)
      → (Ram.get m.hot key).1 ≡ some b
      → get_blob m key ≡ (some (read m key), some b)
  unfolding get_blob read
  hot_blob m key b e = rw (e, get_blob) refl

  -- What a read gives: it ends in an honest memo, with nothing or with the blob of the key.
  abbrev IsRead : String → Option Memo × Option Text → Type 0
  IsRead key s =
      (m' : Memo) × (s.0 ≡ some m') × IsHonest m' × ((s.1 ≡ none) ⊎ (s.1 ≡ some (blob_of key)))

  IsHonest-read : (m : Memo) (key : String) → IsHonest m → IsHonest (read m key)
  unfolding read
  IsHonest-read m key h = read-IsHonest m key h

  IsRead-get_blob :
      (m : Memo) (key : String) → IsUsed key → IsHonest m → IsRead key (get_blob m key)
  IsRead-get_blob m key used h = elim (Option-cases (Ram.get m.hot key).1) [
    | inr (b, e) ↦ subst (IsRead key) (sym (hot_blob m key b e)) (
      read m key,
      refl,
      IsHonest-read m key h,
      inr (ap some (h.hot_blobs key b (sym (get_lem m.hot key h.valid).0 ∙ e))),
    )
    | inl e ↦ elim (Option-cases (disk_get m.disk key)) [
      | inl d ↦
          subst (IsRead key) (sym (no_blob m key e d))
            (read m key, refl, IsHonest-read m key h, inl refl)
      | inr (b, d) ↦
          let same = h.disk_blobs key b used d in
          let (m', put, h') = hot-put (read m key) key (IsHonest-read m key h) in
          subst (IsRead key) (sym (disk_blob m key e b d)) (m', rw same put, h', inr (ap some same))
    ]
  ]

  put_blob-IsHonest :
      (m : Memo) (key : String)
      → IsApart IsUsed
      → IsUsed key
      → IsHonest m
      → (m' : Memo) × (put_blob m key (blob_of key) ≡ some m') × IsHonest m'
  unfolding put_blob
  put_blob-IsHonest m key apart used h =
      hot-put (record m { disk = disk_put m.disk key (blob_of key) }) key
        (disk-put m key apart used h)

-- A memo whose blobs are those of the function's values, a pickling that `loads` undoes, and a set of keys of
-- which no two have the same file: a cached call with one of the keys ends and returns what the function
-- computes for the key, a hit or not, and keeps the memo so.
pub cached_call_lem :
    {V : Type 0} (IsUsed : String → Type 0) (p : Pickle V) (value : String → V) (m : Memo)
    (key : String)
    → ((v : V) → p.loads (p.dumps v) ≡ v)
    → IsApart IsUsed
    → IsUsed key
    → IsHonest IsUsed (λ k. p.dumps (value k)) m
    → (m' : Memo) × (cached_call p m key (value key) ≡ some (m', value key))
      × IsHonest IsUsed (λ k. p.dumps (value k)) m'
unfolding cached_call
cached_call_lem IsUsed p value m key undo apart used h =
    let blob_of = λ (k : String). p.dumps (value k) in
    let (m', e, h', r) = IsRead-get_blob IsUsed blob_of m key used h in
    elim r [
      | inl none_read ↦
          let (m'', e'', h'') = put_blob-IsHonest IsUsed blob_of m' key apart used h' in
          (m'', rw (none_read, e, e'', cached_call) refl, h'')
      | inr some_read ↦ (m', rw (some_read, e, cached_call, undo (value key)) refl, h')
    ]
