-- ===== src/Authority/Empire.antt =====
-- src/citadel/services/authority/empire.py: holders of authority, delegation and the dictator.
pub mod Delegation
use Prim.Native.Nat.{bit_or}
use the_soverign_imperia_cit.Base.{ℕ, String, Bool}
use the_soverign_imperia_cit.Base.Text.{Text}
use the_soverign_imperia_cit.Authority.Fasces.{axe_class, effective_mask, grants, attenuate}
use the_soverign_imperia_cit.Authority.Pomerium.{Pomerium, in_domi}
use the_soverign_imperia_cit.Authority.Lease.{LeaseReaper, grant, is_valid}

-- `(1 << 6) - 1`
abbrev pub rods_all : ℕ
rods_all = 63

unfoldable pub maius_mask : ℕ
maius_mask = bit_or rods_all axe_class

pub record Imperium : Type 0 where
  pub imperium_id : String
  pub rank : String
  pub mask : ℕ
  pub pomerium : Pomerium
  pub lease_id : String

unfoldable pub permits : Imperium → ℕ → Text → Bool
permits i required path = grants required (effective_mask i.mask (in_domi i.pomerium path))

unfoldable pub delegate : Imperium → String → ℕ → String → String → Imperium
delegate i legate_id requested_mask lease_id rank = record {
  imperium_id = legate_id;
  rank = rank;
  mask = attenuate i.mask requested_mask;
  pomerium = i.pomerium;
  lease_id = lease_id;
}

unfoldable pub imperium_maius : Pomerium → String → String → Imperium
unfolding maius_mask
imperium_maius pomerium lease_id imperium_id = record {
  imperium_id = imperium_id;
  rank = "maius";
  mask = maius_mask;
  pomerium = pomerium;
  lease_id = lease_id;
}

-- The reaper is shared with the rest of the program, so it is passed to the methods that read it.
pub record Dictator : Type 0 where
  pub imperium : Imperium
  pub ttl_seconds : ℕ
  pub magister_equitum_id : String

unfoldable pub is_in_command : Dictator → LeaseReaper → ℕ → Bool
is_in_command d reaper now = is_valid reaper d.imperium.lease_id now

unfoldable pub hand_to_magister : Dictator → Imperium
hand_to_magister d = record d.imperium {
  imperium_id = d.magister_equitum_id;
  rank = "magister_equitum";
}

unfoldable pub appoint_dictator :
    Pomerium → LeaseReaper → ℕ → String → String → ℕ → Dictator × LeaseReaper
unfolding maius_mask
appoint_dictator pomerium reaper ttl_seconds magister_equitum_id lease_id now = (
  record {
    imperium = record {
      imperium_id = "dictator";
      rank = "dictator";
      mask = maius_mask;
      pomerium = pomerium;
      lease_id = lease_id;
    };
    ttl_seconds = ttl_seconds;
    magister_equitum_id = magister_equitum_id;
  },
  (grant reaper lease_id "dictator" ttl_seconds now).0,
)
