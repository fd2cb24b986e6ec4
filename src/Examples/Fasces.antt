-- ===== src/Examples/Fasces.antt =====
-- Tokens, zones and leases at concrete inputs (src/citadel/services/authority).
use the_soverign_imperia_cit.Base.{
  ℕ, zero, suc, ◌<◌, ◌≡◌, ◌↔◌, ◌⊎◌, refl, List, [], ◌∷◌, true, false, none, some, ap, arith,
}
use Prim.Native.Nat.{bit_and}
use the_soverign_imperia_cit.Base.Text.{Text, codes, same, starts_with, occurs_in, lower}
use the_soverign_imperia_cit.Base.Dict
use the_soverign_imperia_cit.Base.Sets
use the_soverign_imperia_cit.Authority.Fasces.{
  Signing, FascesToken, write_file, delete_path, canonical, sign_token, verify_token,
  effective_mask, permitted, grants, attenuate,
}
use the_soverign_imperia_cit.Authority.Fasces.Masks
use the_soverign_imperia_cit.Authority.Fasces.Binding
use the_soverign_imperia_cit.Authority.Fasces.Binding.{IsBinding, HasPlainNames, IsPlain}
use the_soverign_imperia_cit.Authority.Pomerium.{
  Pomerium, domi, militiae, norm, split_at_slash, behind_wall, zone,
}
use the_soverign_imperia_cit.Authority.Pomerium.Zones
use the_soverign_imperia_cit.Authority.Lease.{
  LeaseReaper, Lease, Entry, is_valid, grant, revoke, reap, next_expiry,
}
use the_soverign_imperia_cit.Authority.Lease.Validity
use the_soverign_imperia_cit.Authority.Lease.Heap.{Reaped}
use the_soverign_imperia_cit.Authority.Lease.Reaping
use the_soverign_imperia_cit.Authority.Lease.Renewal

-- A signing that keeps its promises: the digest is the body, and a number is that many strokes.
strokes : ℕ → Text
strokes zero = []
strokes (suc n) = b'x' ∷ strokes n

strokes-inj : (m n : ℕ) → strokes m ≡ strokes n → m ≡ n
unfolding strokes
strokes-inj zero zero e = refl
strokes-inj zero (suc n) e = absurd (cc)
strokes-inj (suc m) zero e = absurd (cc)
strokes-inj (suc m) (suc n) e = ap suc (strokes-inj m n (cc))

strokes-IsPlain : (m : ℕ) → IsPlain (strokes m)
unfolding strokes
strokes-IsPlain zero = tt
strokes-IsPlain (suc m) = (omega arith, strokes-IsPlain m)

abbrev plain_signing : Signing
plain_signing = record { hexdigest = λ key body. body; show_int = strokes; show_time = strokes }

abbrev secret : Text
secret = codes "k"

plain_signing-IsBinding : IsBinding plain_signing secret
plain_signing-IsBinding = record {
  collision_free = λ a b e. e;
  int_inj = strokes-inj;
  int_plain = strokes-IsPlain;
  time_inj = strokes-inj;
}

abbrev token : FascesToken
token = record {
  imperium_id = "w0";
  rank = "legatus";
  mask = 3;
  lease_id = "l0";
  zone_policy = "domi";
  expiry = 9;
  signature = canonical plain_signing "w0" "legatus" 3 "l0" "domi" 9;
}

token-HasPlainNames : HasPlainNames token
token-HasPlainNames = record {
  imperium_id = omega arith;
  rank = omega arith;
  lease_id = omega arith;
  zone_policy = omega arith;
}

token_verifies : verify_token plain_signing token secret ≡ true
unfolding sign_token
token_verifies = Binding.verify_token-sign_token plain_signing "w0" "legatus" 3 "l0" "domi" 9 secret

permitted_test :
    (permitted plain_signing write_file token true (some secret) 8 ≡ true)
    × (permitted plain_signing write_file token true (some secret) 9 ≡ false)
    × (permitted plain_signing delete_path token false none 8 ≡ false)
unfolding permitted verify_token same canonical strokes
permitted_test = (refl, refl, refl)

permitted_iff_example : (permitted plain_signing 1 token true (some secret) 3 ≡ true) ↔ (
    ((token.expiry ≡ 0) ⊎ (3 < token.expiry))
    × Masks.IsSigned plain_signing token (some secret)
    × (bit_and 1 token.mask ≡ 1)
    × Masks.IsAxeless 1 true)
permitted_iff_example = Masks.permitted_iff plain_signing 1 token true (some secret) 3

grants-attenuate_example :
    (grants 1 (attenuate 3 5) ≡ true) ↔ ((grants 1 3 ≡ true) × (grants 1 5 ≡ true))
grants-attenuate_example = Masks.grants-attenuate 1 3 5

grants-rods_example : grants 3 (effective_mask 7 true) ≡ grants 3 7
grants-rods_example = Masks.grants-rods 3 7 true refl

verify_token_binds_example : Binding.SameFields token token
verify_token_binds_example =
    Binding.verify_token_binds plain_signing secret token token plain_signing-IsBinding
      token-HasPlainNames token-HasPlainNames refl token_verifies token_verifies

-- `w0|x` of rank `legatus` signs as `w0` of rank `x|legatus`.
verify_token_moved_bar_example :
    verify_token plain_signing (record token { imperium_id = "w0|x"; rank = "legatus" }) secret
    ≡ verify_token plain_signing (record token { imperium_id = "w0"; rank = "x|legatus" }) secret
verify_token_moved_bar_example =
    Binding.verify_token_moved_bar plain_signing secret
      (record token { imperium_id = "w0|x"; rank = "legatus" })
      (record token { imperium_id = "w0"; rank = "x|legatus" }) refl refl refl refl refl refl

abbrev boundary : Pomerium
boundary = record {
  domi_prefixes = codes "/repo/.git" ∷ codes "/repo" ∷ [];
  militiae_prefixes = codes "/repo/work" ∷ codes "/tmp" ∷ [];
  default_zone = domi;
}

zone_test :
    (zone boundary (codes "/repo/work/a") ≡ militiae)
    × (zone boundary (codes "/repo/a") ≡ domi)
    × (zone boundary (codes "/tmp/OneDrive - x/a") ≡ domi)
    × (zone boundary (codes "/home") ≡ domi)
unfolding zone norm split_at_slash starts_with occurs_in lower
zone_test = (refl, refl, refl, refl)

zone_follows_rule_example :
    zone boundary (codes "/tmp/a")
    ≡ Zones.decide_zone
        (behind_wall (norm (codes "/tmp/a")))
        (Zones.longest (norm (codes "/tmp/a")) boundary.domi_prefixes)
        (Zones.longest (norm (codes "/tmp/a")) boundary.militiae_prefixes)
        boundary.default_zone
zone_follows_rule_example = Zones.zone_follows_rule boundary (codes "/tmp/a")

abbrev fresh : LeaseReaper
fresh = record { heap = []; leases = []; revoked = []; counter = 0 }

is_valid-revoke_example : is_valid (revoke (grant fresh "a" "s" 5 10).0 "a") "a" 12 ≡ false
is_valid-revoke_example = Validity.is_valid-revoke (grant fresh "a" "s" 5 10).0 "a" "a" 12

reap-Reaped_example :
    let r = (grant fresh "a" "s" 5 10).0 in
    Reaped r.revoked 20 r.heap (reap r 20).0.heap (reap r 20).1
unfolding grant Sets.discard Dict.put
reap-Reaped_example = Reaping.reap-Reaped (grant fresh "a" "s" 5 10).0 20 (tt, tt)

renewed_lease_dies_example :
    let renewed = (grant (grant fresh "a" "s" 5 10).0 "a" "s" 50 12).0 in
    (is_valid renewed "a" 20 ≡ true) × (is_valid (reap renewed 20).0 "a" 21 ≡ false)
renewed_lease_dies_example =
    Renewal.renewed_lease_dies fresh "a" "s" 5 50 10 12 20 21 tt (omega arith) (omega arith)

abbrev entry : Entry
entry = record {
  expiry = 15;
  count = 0;
  lease = record { lease_id = "a"; subject = "s"; expiry = 15 };
}

abbrev with_revoked : LeaseReaper
with_revoked = record fresh { heap = entry ∷ []; revoked = "a" ∷ [] }

next_expiry_hides_revoked_example :
    ((rest : List Lease) × ((reap with_revoked 12).1 ≡ entry.lease ∷ rest))
    × ((reap (next_expiry with_revoked).0 12).1 ≡ [])
unfolding Sets.member
next_expiry_hides_revoked_example =
    Reaping.next_expiry_hides_revoked with_revoked entry [] 12 refl refl (omega arith, tt)
