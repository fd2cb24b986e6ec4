-- ===== src/Authority/Fasces.antt =====
-- src/citadel/services/authority/fasces.py: signed capability tokens. A mask is a number, its
-- rods the low bits and its axe the high 16 of 64. Times are whole ticks. The HMAC and Python's
-- printing of numbers are the parameter `Signing`.
pub mod Masks
pub mod Binding
use Prim.Native.Nat.{bit_and}
use the_soverign_imperia_cit.Base.{
  ℕ, String, ◌++◌, ◌∷◌, Bool, true, false, ◌&&◌, not, Option, none, some, leb, ◌==◌, if◌then◌else◌,
}
use the_soverign_imperia_cit.Base.Bits.{and_not}
use the_soverign_imperia_cit.Base.Text.{Text, codes, same}

abbrev pub write_file : ℕ
write_file = 1

abbrev pub apply_patch : ℕ
apply_patch = 2

abbrev pub restart_svc : ℕ
restart_svc = 4

abbrev pub index_write : ℕ
index_write = 8

abbrev pub cache_evict : ℕ
cache_evict = 16

abbrev pub format : ℕ
format = 32

abbrev pub axe_class : ℕ
axe_class = 0xffff_0000_0000_0000

abbrev pub delete_path : ℕ
delete_path = 0x1_0000_0000_0000

-- What the module takes from Python: `hmac.new(key, body, sha256).hexdigest()`, and `str` of an
-- integer and of a time.
pub record Signing : Type 0 where
  pub hexdigest : Text → Text → Text
  pub show_int : ℕ → Text
  pub show_time : ℕ → Text

pub record FascesToken : Type 0 where
  pub imperium_id : String
  pub rank : String
  pub mask : ℕ
  pub lease_id : String
  pub zone_policy : String
  pub expiry : ℕ
  pub signature : Text

abbrev pub bar : ℕ
bar = b'|'

-- The fields of a token, joined by `|`.
unfoldable pub canonical : Signing → String → String → ℕ → String → String → ℕ → Text
canonical sg imperium_id rank mask lease_id zone_policy expiry =
    codes imperium_id
    ++ (bar
        ∷ (codes rank
            ++ (bar
                ∷ (sg.show_int mask
                    ++ (bar
                        ∷ (codes lease_id
                            ++ (bar ∷ (codes zone_policy ++ (bar ∷ sg.show_time expiry)))))))))

unfoldable pub sign_token : Signing → String → String → ℕ → String → String → ℕ → Text → FascesToken
sign_token sg imperium_id rank mask lease_id zone_policy expiry key = record {
  imperium_id = imperium_id;
  rank = rank;
  mask = mask;
  lease_id = lease_id;
  zone_policy = zone_policy;
  expiry = expiry;
  signature = sg.hexdigest key (canonical sg imperium_id rank mask lease_id zone_policy expiry);
}

-- `hmac.compare_digest` is equality of the two texts.
unfoldable pub verify_token : Signing → FascesToken → Text → Bool
verify_token sg t key =
    same
      (sg.hexdigest key
        (canonical sg t.imperium_id t.rank t.mask t.lease_id t.zone_policy t.expiry))
      t.signature

-- `key is not None and not verify_token(token, key=key)`
unfoldable pub bad_signature : Signing → FascesToken → Option Text → Bool
bad_signature sg t none = false
bad_signature sg t (some key) = not (verify_token sg t key)

unfoldable pub effective_mask : ℕ → Bool → ℕ
unfolding and_not
effective_mask mask in_domi = if in_domi then and_not mask axe_class else mask

unfoldable pub grants : ℕ → ℕ → Bool
grants required effective = bit_and required effective == required

-- An `expiry` of 0 is falsy, so such a token does not expire. `now` is the caller's clock.
unfoldable pub permitted : Signing → ℕ → FascesToken → Bool → Option Text → ℕ → Bool
unfolding bad_signature effective_mask grants
permitted sg required t in_domi key now =
    if not (t.expiry == 0) && leb t.expiry now
    then false
    else if bad_signature sg t key
    then false
    else grants required (effective_mask t.mask in_domi)

unfoldable pub attenuate : ℕ → ℕ → ℕ
attenuate parent_mask requested_mask = bit_and parent_mask requested_mask
