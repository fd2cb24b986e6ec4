-- ===== src/Authority/Empire/Delegation.antt =====
-- What a chain of delegations and a dictatorship can and cannot do.
use Prim.Native.Nat.{bit_and}
use text.Mathlib.TextPositions.{eq_refl}
use the_soverign_imperia_cit.Base.{
  ℕ, ◌+◌, String, ◌≡◌, ◌≢◌, refl, ap, ◌∙◌, List, [], ◌∷◌, Bool, true, false, arith, ltb,
}
use the_soverign_imperia_cit.Base.Text.{Text}
use the_soverign_imperia_cit.Base.Bits.{and_not_of_disjoint, bit_and-and_not}
use the_soverign_imperia_cit.Authority.Fasces.{axe_class, effective_mask, attenuate}
use the_soverign_imperia_cit.Authority.Fasces.Masks.{grants_mono, grants-domi, attenuate-parent}
use the_soverign_imperia_cit.Base.Bits.{and_not, bit_and_comm, bit_and-and_not_assoc}
use the_soverign_imperia_cit.Authority.Pomerium.{Pomerium, in_domi}
use the_soverign_imperia_cit.Authority.Lease.{LeaseReaper, is_valid}
use the_soverign_imperia_cit.Authority.Lease.Validity.{is_valid-grant}
use the_soverign_imperia_cit.Authority.Empire.{
  Imperium, permits, delegate, is_in_command, hand_to_magister, appoint_dictator,
}

-- One appointment: the legate's id, the mask it asks for, its lease and its rank.
pub record Appointment : Type 0 where
  pub legate_id : String
  pub requested_mask : ℕ
  pub lease_id : String
  pub rank : String

-- A chain of appointments, each made by the holder before it.
unfoldable pub chain : Imperium → List Appointment → Imperium
chain i [] = i
chain i (a ∷ appointments) =
    chain (delegate i a.legate_id a.requested_mask a.lease_id a.rank) appointments

-- The axe comes off a part appointments it comes off the whole.
effective_mask_mono :
    (part whole : ℕ) (domi : Bool)
    → bit_and part whole ≡ part
    → bit_and (effective_mask part domi) (effective_mask whole domi) ≡ effective_mask part domi
unfolding effective_mask
effective_mask_mono part whole false h = h
effective_mask_mono part whole true h =
    bit_and-and_not_assoc (and_not part axe_class) whole axe_class
    ∙ ap (λ t. and_not t axe_class)
        (bit_and_comm (and_not part axe_class) whole
          ∙ bit_and-and_not_assoc whole part axe_class
          ∙ ap (λ t. and_not t axe_class) (bit_and_comm whole part ∙ h))
    ∙ and_not_of_disjoint (and_not part axe_class) axe_class (bit_and-and_not part axe_class)

permits-delegate :
    (i : Imperium) (a : Appointment) (required : ℕ) (path : Text)
    → permits (delegate i a.legate_id a.requested_mask a.lease_id a.rank) required path ≡ true
    → permits i required path ≡ true
unfolding permits delegate
permits-delegate i a required path h =
    grants_mono required
      (effective_mask (attenuate i.mask a.requested_mask) (in_domi i.pomerium path))
      (effective_mask i.mask (in_domi i.pomerium path))
      (effective_mask_mono (attenuate i.mask a.requested_mask) i.mask (in_domi i.pomerium path)
        (attenuate-parent i.mask a.requested_mask))
      h

-- Nobody at the end of a chain of delegations is permitted what the first holder is not.
pub permits-chain :
    (i : Imperium) (appointments : List Appointment) (required : ℕ) (path : Text)
    → permits (chain i appointments) required path ≡ true
    → permits i required path ≡ true
unfolding chain
permits-chain i [] required path h = h
permits-chain i (a ∷ appointments) required path h = permits-delegate i a required path (
    permits-chain (delegate i a.legate_id a.requested_mask a.lease_id a.rank) appointments required
      path h)

pomerium-chain :
    (i : Imperium) (appointments : List Appointment) → (chain i appointments).pomerium ≡ i.pomerium
unfolding chain delegate
pomerium-chain i [] = refl
pomerium-chain i (a ∷ appointments) =
    pomerium-chain (delegate i a.legate_id a.requested_mask a.lease_id a.rank) appointments

-- Inside the first holder's pomerium no holder of any rank, however appointed, is permitted what
-- needs a bit of the axe.
pub permits-domi :
    (i : Imperium) (appointments : List Appointment) (required : ℕ) (path : Text)
    → bit_and required axe_class ≢ 0
    → in_domi i.pomerium path ≡ true
    → permits (chain i appointments) required path ≡ false
unfolding permits
permits-domi i appointments required path axe inside =
    rw (pomerium-chain i appointments, inside)
      (grants-domi required (chain i appointments).mask axe)

-- An appointed dictator is in command for exactly the time to live of the lease, and so is the
-- magister equitum who takes over: the same mask, pomerium and lease.
pub is_in_command-appoint_dictator :
    (p : Pomerium) (reaper : LeaseReaper) (ttl : ℕ) (magister lease : String) (start now : ℕ)
    (required : ℕ) (path : Text)
    → let (d, r) = appoint_dictator p reaper ttl magister lease start in
      (is_in_command d r now ≡ ltb now (start + ttl))
      × (is_valid r (hand_to_magister d).lease_id now ≡ ltb now (start + ttl))
      × (permits (hand_to_magister d) required path ≡ permits d.imperium required path)
unfolding is_in_command appoint_dictator hand_to_magister permits
is_in_command-appoint_dictator p reaper ttl magister lease start now required path =
    let e = is_valid-grant reaper lease "dictator" ttl start lease now in
    (ground (arith, e, eq_refl lease), ground (arith, e, eq_refl lease), refl)
