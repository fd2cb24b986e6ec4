-- ===== src/Examples/Memo.antt =====
-- The memo at a concrete input (src/citadel/services/cache/memoize.py).
use the_soverign_imperia_cit.Base.{
  String, [], none, ◌≡◌, refl, sym, ap, ◌∙◌, ◌⊎◌, inl, inr, eq_iff, arith, some,
}
use the_soverign_imperia_cit.Base.Dict
use the_soverign_imperia_cit.Base.Text.{Text, codes, append}
use the_soverign_imperia_cit.Cache.Ram.{RamCache, sieve, init, find}
use the_soverign_imperia_cit.Cache.Ram.Calls
use the_soverign_imperia_cit.Cache.Ram.Evict.{value_of}
use the_soverign_imperia_cit.Cache.Memoize.{Memo, Pickle, disk_name, cached_call}
use the_soverign_imperia_cit.Cache.Memoize.Remembered.{IsApart, IsHonest, cached_call_lem}

abbrev hot : RamCache
hot = record {
  max_entries = 2;
  max_bytes = 10;
  policy = sieve;
  nodes = [];
  hand = none;
  bytes = 0;
  hits = 0;
  misses = 0;
  evictions = 0;
}

made : init 2 10 "sieve" ≡ some hot
unfolding init
made = refl

abbrev plain : Pickle Text
plain = record { dumps = λ v. v; loads = λ b. b }

abbrev memo : Memo
memo = record { hot = hot; disk = some [] }

-- The keys of two operations with the same digest.
abbrev IsUsed : String → Type 0
IsUsed k = (k ≡ "a:0") ⊎ (k ≡ "b:0")

apart : IsApart IsUsed
unfolding disk_name append
apart k l (inl e) (inl f) d = e ∙ sym f
apart k l (inr e) (inr f) d = e ∙ sym f
apart k l (inl e) (inr f) d =
    let p : "a__0" ≡ "b__0" = ap disk_name (sym e) ∙ d ∙ ap disk_name f in
    absurd (ground (arith, p, eq_iff "a__0" "b__0"))
apart k l (inr e) (inl f) d =
    let p : "b__0" ≡ "a__0" = ap disk_name (sym e) ∙ d ∙ ap disk_name f in
    absurd (ground (arith, p, eq_iff "b__0" "a__0"))

-- The keys of the operations `a:b` and `a__b` have one file.
one_file : disk_name "a:b:0" ≡ disk_name "a__b:0"
unfolding disk_name append
one_file = refl

memo-IsHonest : IsHonest IsUsed codes memo
unfolding find value_of Dict.get
memo-IsHonest = record {
  valid = (Calls.init-IsValid 2 10 "sieve" hot made).0;
  hot_blobs = λ k b g. absurd (ground (arith, g));
  disk_blobs = λ k b u g. absurd (ground (arith, g));
}

cached_call_lem_example :
    (m' : Memo) × (cached_call plain memo "a:0" (codes "a:0") ≡ some (m', codes "a:0"))
    × IsHonest IsUsed codes m'
cached_call_lem_example =
    cached_call_lem IsUsed plain codes memo "a:0" (λ v. refl) apart (inl refl) memo-IsHonest
