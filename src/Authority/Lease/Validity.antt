-- ===== src/Authority/Lease/Validity.antt =====
-- When a lease is valid.
use the_soverign_imperia_cit.Base.{
  ℕ, ◌+◌, ◌≤◌, String, ◌≡◌, true, false, ltb, str_eq, arith, if◌then◌else◌,
}
use the_soverign_imperia_cit.Base.Dict.{get-put}
use the_soverign_imperia_cit.Base.Sets.{member-add, member-discard}
use the_soverign_imperia_cit.Authority.Lease.{LeaseReaper, grant, revoke, is_valid}

-- After a grant the lease is valid for exactly its time to live, whatever stood under its id
-- before, a revocation included, and every other lease is valid just when it was.
pub is_valid-grant :
    (r : LeaseReaper) (id subject : String) (ttl now : ℕ) (other : String) (later : ℕ)
    → is_valid (grant r id subject ttl now).0 other later
      ≡ (if str_eq id other then ltb later (now + ttl) else is_valid r other later)
unfolding is_valid grant
is_valid-grant r id subject ttl now other later = ground (
  arith,
  get-put r.leases id other (record { lease_id = id; subject = subject; expiry = now + ttl }),
  member-discard r.revoked id other,
)

-- A revocation ends its lease for every time, and touches no other.
pub is_valid-revoke :
    (r : LeaseReaper) (id other : String) (later : ℕ)
    → is_valid (revoke r id) other later
      ≡ (if str_eq id other then false else is_valid r other later)
unfolding is_valid revoke
is_valid-revoke r id other later = ground (arith, member-add r.revoked id other)

-- A lease that is not valid at a time is not valid at a later time.
pub is_valid_expires :
    (r : LeaseReaper) (id : String) (now later : ℕ)
    → now ≤ later
    → is_valid r id later ≡ true
    → is_valid r id now ≡ true
unfolding is_valid
is_valid_expires r id now later le h = ground arith
