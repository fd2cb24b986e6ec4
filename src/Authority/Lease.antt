-- ===== src/Authority/Lease.antt =====
-- src/citadel/services/authority/lease.py: leases and their reaper. Times are whole ticks. The
-- min-heap is a list sorted by its key, of which the code uses the head only; the last field of a
-- heap entry never decides a comparison, since the counter differs.
pub mod Validity
pub mod Heap
pub mod Reaping
pub mod Renewal
use the_soverign_imperia_cit.Base.{
  ℕ, suc, ◌+◌, String, List, [], ◌∷◌, Bool, true, false, ◌||◌, ◌&&◌, Option, none, some, ltb, leb,
  ◌==◌, if◌then◌else◌,
}
use the_soverign_imperia_cit.Base.Dict
use the_soverign_imperia_cit.Base.Dict.{Dict}
use the_soverign_imperia_cit.Base.Sets

pub record Lease : Type 0 where
  pub lease_id : String
  pub subject : String
  pub expiry : ℕ

-- `(lease.expiry, next(counter), lease)`
pub record Entry : Type 0 where
  pub expiry : ℕ
  pub count : ℕ
  pub lease : Lease

pub record LeaseReaper : Type 0 where
  pub heap : List Entry
  pub leases : Dict Lease
  pub revoked : List String
  pub counter : ℕ

unfoldable pub init : LeaseReaper
init = record { heap = []; leases = []; revoked = []; counter = 0 }

-- The order of the heap's tuples.
unfoldable pub before : Entry → Entry → Bool
before a b = ltb a.expiry b.expiry || (a.expiry == b.expiry && ltb a.count b.count)

-- `heapq.heappush`
unfoldable pub heappush : List Entry → Entry → List Entry
unfolding before
heappush [] e = e ∷ []
heappush (x ∷ h) e = let rest = heappush h e in if before e x then e ∷ x ∷ h else x ∷ rest

unfoldable pub grant : LeaseReaper → String → String → ℕ → ℕ → LeaseReaper × Lease
unfolding heappush
grant r lease_id subject ttl_seconds now =
    let lease : Lease = record {
      lease_id = lease_id;
      subject = subject;
      expiry = now + ttl_seconds;
    } in
    (
      record {
        heap = heappush r.heap (record { expiry = lease.expiry; count = r.counter; lease = lease });
        leases = Dict.put r.leases lease_id lease;
        revoked = Sets.discard r.revoked lease_id;
        counter = suc r.counter;
      },
      lease,
    )

unfoldable pub revoke : LeaseReaper → String → LeaseReaper
revoke r lease_id = record r { revoked = Sets.add r.revoked lease_id }

unfoldable pub unexpired : Option Lease → ℕ → Bool
unexpired none now = false
unexpired (some lease) now = ltb now lease.expiry

unfoldable pub is_valid : LeaseReaper → String → ℕ → Bool
unfolding unexpired
is_valid r lease_id now =
    if Sets.member r.revoked lease_id then false else unexpired (Dict.get r.leases lease_id) now

-- The loop of `next_expiry` over the heap.
unfoldable pub drop_revoked : List String → List Entry → List Entry
drop_revoked revoked [] = []
drop_revoked revoked (e ∷ h) =
    let rest = drop_revoked revoked h in
    if Sets.member revoked e.lease.lease_id then rest else e ∷ h

unfoldable pub head_expiry : List Entry → Option ℕ
head_expiry [] = none
head_expiry (e ∷ h) = some e.expiry

unfoldable pub next_expiry : LeaseReaper → LeaseReaper × Option ℕ
unfolding drop_revoked head_expiry
next_expiry r =
    let heap : List Entry = drop_revoked r.revoked r.heap in
    (record r { heap = heap }, head_expiry heap)

-- The test of the loop of `reap` on the head of the heap.
unfoldable pub is_dead : List String → ℕ → Entry → Bool
is_dead revoked now e = leb e.expiry now || Sets.member revoked e.lease.lease_id

-- The loop of `reap`: the heap and the leases that are left, and the dead in the order of removal.
unfoldable pub reap_loop :
    List String → ℕ → List Entry → Dict Lease → List Entry × Dict Lease × List Lease
unfolding is_dead
reap_loop revoked now [] leases = ([], leases, [])
reap_loop revoked now (e ∷ h) leases =
    let (heap, left, dead) = reap_loop revoked now h (Dict.remove leases e.lease.lease_id) in
    if is_dead revoked now e then (heap, left, e.lease ∷ dead) else (e ∷ h, leases, [])

unfoldable pub reap : LeaseReaper → ℕ → LeaseReaper × List Lease
unfolding reap_loop
reap r now =
    let (heap, leases, dead) = reap_loop r.revoked now r.heap r.leases in
    (record r { heap = heap; leases = leases }, dead)
