-- ===== src/Authority/Lease/Renewal.antt =====
-- A lease that is granted again before its first grant expires.
use text.Mathlib.TextPositions.{eq_refl}
use the_soverign_imperia_cit.Base.{
  ℕ, ◌+◌, ◌≤◌, ◌<◌, String, ◌≡◌, refl, List, [], ◌∷◌, true, false, none, eq_iff, arith, All,
  Bool-cases, inl, inr,
}
use the_soverign_imperia_cit.Base.Dict
use the_soverign_imperia_cit.Base.Dict.{Dict, get-remove}
use the_soverign_imperia_cit.Authority.Lease.{
  Lease, Entry, LeaseReaper, before, heappush, grant, is_valid, is_dead, reap_loop, reap,
}
use the_soverign_imperia_cit.Authority.Lease.Heap.{IsSorted, grant-IsSorted}
use the_soverign_imperia_cit.Authority.Lease.Validity.{is_valid-grant}

-- The heap holds an entry of the lease that has expired.
data IsOwed (id : String) (now : ℕ) : List Entry → Type 0 where
  here :
      {e : Entry} {h : List Entry} → e.lease.lease_id ≡ id → e.expiry ≤ now → IsOwed id now (e ∷ h)
  there : {e : Entry} {h : List Entry} → IsOwed id now h → IsOwed id now (e ∷ h)

IsOwed-heappush_new :
    (id : String) (now : ℕ) (h : List Entry) (e : Entry)
    → e.lease.lease_id ≡ id
    → e.expiry ≤ now
    → IsOwed id now (heappush h e)
unfolding heappush
IsOwed-heappush_new id now [] e p q = here p q
IsOwed-heappush_new id now (x ∷ h) e p q = elim (Bool-cases (before e x)) [
  | inl b ↦ rw b (here p q)
  | inr b ↦ rw b (there (IsOwed-heappush_new id now h e p q))
]

IsOwed-heappush :
    (id : String) (now : ℕ) (h : List Entry) (e : Entry)
    → IsOwed id now h
    → IsOwed id now (heappush h e)
unfolding heappush
IsOwed-heappush id now [] e o = elim o [ ]
IsOwed-heappush id now (x ∷ h) e (here p q) = elim (Bool-cases (before e x)) [
  | inl b ↦ rw b (there (here p q))
  | inr b ↦ rw b (here p q)
]
IsOwed-heappush id now (x ∷ h) e (there o) = elim (Bool-cases (before e x)) [
  | inl b ↦ rw b (there (there o))
  | inr b ↦ rw b (there (IsOwed-heappush id now h e o))
]

IsOwed-IsSorted :
    (id : String) (now : ℕ) (e : Entry) (h : List Entry)
    → IsOwed id now (e ∷ h)
    → IsSorted (e ∷ h)
    → e.expiry ≤ now
IsOwed-IsSorted id now e h (here p q) s = q
IsOwed-IsSorted id now e h (there o) s = below h o s.0
  where
    below : (l : List Entry) → IsOwed id now l → All (λ x. e.expiry ≤ x.expiry) l → e.expiry ≤ now
    below [] o a = elim o [ ]
    below (x ∷ l) (here p q) a = omega arith
    below (x ∷ l) (there o) a = below l o a.1

-- The loop only removes leases.
get-reap_loop-none :
    (revoked : List String) (now : ℕ) (h : List Entry) (leases : Dict Lease) (id : String)
    → Dict.get leases id ≡ none
    → Dict.get (reap_loop revoked now h leases).1 id ≡ none
unfolding reap_loop
get-reap_loop-none revoked now [] leases id n = n
get-reap_loop-none revoked now (e ∷ h) leases id n = ground (
  arith,
  get-remove leases e.lease.lease_id id,
  get-reap_loop-none revoked now h (Dict.remove leases e.lease.lease_id) id,
)

is_dead_of_expired :
    (revoked : List String) (now : ℕ) (e : Entry) → e.expiry ≤ now → is_dead revoked now e ≡ true
unfolding is_dead
is_dead_of_expired revoked now e h = ground arith

get-reap_loop-dead :
    (revoked : List String) (now : ℕ) (e : Entry) (h : List Entry) (leases : Dict Lease)
    → is_dead revoked now e ≡ true
    → (reap_loop revoked now (e ∷ h) leases).1
      ≡ (reap_loop revoked now h (Dict.remove leases e.lease.lease_id)).1
unfolding reap_loop
get-reap_loop-dead revoked now e h leases d = rw d

get-remove_self : (d : Dict Lease) (k j : String) → k ≡ j → Dict.get (Dict.remove d k) j ≡ none
get-remove_self d k j e = ground (arith, get-remove d k j, eq_iff k j)

get-reap_loop-IsOwed :
    (revoked : List String) (now : ℕ) (h : List Entry) (leases : Dict Lease) (id : String)
    → IsSorted h
    → IsOwed id now h
    → Dict.get (reap_loop revoked now h leases).1 id ≡ none
get-reap_loop-IsOwed revoked now [] leases id s o = elim o [ ]
get-reap_loop-IsOwed revoked now (e ∷ h) leases id s (here p q) =
    rw (get-reap_loop-dead revoked now e h leases (is_dead_of_expired revoked now e q)) (
      get-reap_loop-none revoked now h (Dict.remove leases e.lease.lease_id) id
        (get-remove_self leases e.lease.lease_id id p))
get-reap_loop-IsOwed revoked now (e ∷ h) leases id s (there o) =
    rw
      (get-reap_loop-dead revoked now e h leases
        (is_dead_of_expired revoked now e (IsOwed-IsSorted id now e h (there o) s)))
      (get-reap_loop-IsOwed revoked now h (Dict.remove leases e.lease.lease_id) id s.1 o)

is_valid-reap-IsOwed :
    (r : LeaseReaper) (id : String) (now later : ℕ)
    → IsSorted r.heap
    → IsOwed id now r.heap
    → is_valid (reap r now).0 id later ≡ false
unfolding is_valid reap
is_valid-reap-IsOwed r id now later s o =
    ground (arith, get-reap_loop-IsOwed r.revoked now r.heap r.leases id s o)

-- The heap keeps the entry of the first grant when the lease is granted again.
IsOwed-grant-grant :
    (r : LeaseReaper) (id subject : String) (ttl ttl' start start' now : ℕ)
    → start + ttl ≤ now
    → IsOwed id now (grant (grant r id subject ttl start).0 id subject ttl' start').0.heap
unfolding grant
IsOwed-grant-grant r id subject ttl ttl' start start' now p =
    IsOwed-heappush id now _ _ (IsOwed-heappush_new id now r.heap _ refl p)

-- A second grant does not save a lease from the reaper: once the first grant has expired a reap
-- ends the lease for good, although the second grant would keep it valid.
pub renewed_lease_dies :
    (r : LeaseReaper) (id subject : String) (ttl ttl' start start' now later : ℕ)
    → IsSorted r.heap
    → start + ttl ≤ now
    → now < start' + ttl'
    → let renewed = (grant (grant r id subject ttl start).0 id subject ttl' start').0 in
      (is_valid renewed id now ≡ true) × (is_valid (reap renewed now).0 id later ≡ false)
renewed_lease_dies r id subject ttl ttl' start start' now later s p q =
    let first = (grant r id subject ttl start).0 in
    (
      ground (arith, is_valid-grant first id subject ttl' start' id now, eq_refl id),
      is_valid-reap-IsOwed (grant first id subject ttl' start').0 id now later
          (grant-IsSorted first id subject ttl' start' (grant-IsSorted r id subject ttl start s))
          (IsOwed-grant-grant r id subject ttl ttl' start start' now p),
    )
