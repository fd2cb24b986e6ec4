-- ===== src/Retrieval/Vectors/Ids.antt =====
-- The key of a chunk tells its path and its index.
use Prim.Native.Char.{Char}
use the_soverign_imperia_cit.Base.{
  ℕ, String, ◌≡◌, refl, ap, Bool, true, false, arith, str_eq, if◌then◌else◌,
}
use the_soverign_imperia_cit.Base.Text.{append}
use the_soverign_imperia_cit.Retrieval.Vectors.{chunk_id}

abbrev pub has_hash : String → Bool
has_hash String.[] = false
has_hash (String.◌∷◌ c s) = if str_eq (String.◌∷◌ c String.[]) "#" then true else has_hash s

-- What `str` of a number does: different numbers have different digits, and no digit is a `#`.
pub record IsDecimal (str : ℕ → String) : Type 0 where
  pub no_hash : (n : ℕ) → has_hash (str n) ≡ false
  pub injective : (m n : ℕ) → str m ≡ str n → m ≡ n

abbrev tail : String → String
tail String.[] = ""
tail (String.◌∷◌ c s) = s

has_hash-append : (p d : String) → has_hash (append p (append "#" d)) ≡ true
unfolding append
has_hash-append String.[] d = refl
has_hash-append (String.◌∷◌ c p) d = ground (arith, has_hash-append p d)

abbrev head : String → Char → Char
head String.[] b = b
head (String.◌∷◌ c s) b = c

heads :
    (c b : Char) (p q s t : String)
    → String.◌∷◌ c s ≡ String.◌∷◌ b t
    → p ≡ q
    → String.◌∷◌ c p ≡ String.◌∷◌ b q
heads c b p q s t h e = let k : c ≡ b = ap (λ u. head u c) h in rw (k, e) refl

split_at_hash :
    (p q d e : String)
    → has_hash d ≡ false
    → has_hash e ≡ false
    → append p (append "#" d) ≡ append q (append "#" e)
    → (p ≡ q) × (d ≡ e)
unfolding append
split_at_hash String.[] String.[] d e hd he h = (refl, ap tail h)
split_at_hash String.[] (String.◌∷◌ c q) d e hd he h =
    absurd (ground (arith, ap has_hash (ap tail h), has_hash-append q e, hd))
split_at_hash (String.◌∷◌ c p) String.[] d e hd he h =
    absurd (ground (arith, ap has_hash (ap tail h), has_hash-append p d, he))
split_at_hash (String.◌∷◌ c p) (String.◌∷◌ b q) d e hd he h =
    let (p_q, d_e) = split_at_hash p q d e hd he (ap tail h) in (heads c b p q _ _ h p_q, d_e)

pub chunk_id_inj :
    (str : ℕ → String)
    → IsDecimal str
    → (p q : String) (i j : ℕ) → chunk_id str p i ≡ chunk_id str q j
    → (p ≡ q) × (i ≡ j)
unfolding chunk_id
chunk_id_inj str dec p q i j h =
    let (p_q, digits) = split_at_hash p q (str i) (str j) (dec.no_hash i) (dec.no_hash j) h in
    (p_q, dec.injective i j digits)
