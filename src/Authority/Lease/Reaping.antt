-- ===== src/Authority/Lease/Reaping.antt =====
-- What `reap` and `next_expiry` do.
use the_soverign_imperia_cit.Base.{
  ℕ, ◌<◌, String, ◌≡◌, refl, ap, ◌∙◌, List, [], ◌∷◌, true, false, str_eq, arith, All, Bool-cases,
  inl, inr,
}
use the_soverign_imperia_cit.Base.Dict
use the_soverign_imperia_cit.Base.Dict.{Dict, get-remove}
use the_soverign_imperia_cit.Base.Sets
use the_soverign_imperia_cit.Authority.Lease.{
  Lease, Entry, LeaseReaper, is_valid, drop_revoked, next_expiry, is_dead, reap_loop, reap,
}
use the_soverign_imperia_cit.Authority.Lease.Heap.{IsSorted, Reaped, reap_loop-Reaped}

-- A reap of a sorted heap splits it: the leases of its front, which had all expired or been revoked, are
-- returned, in order; none of the entries that stay has expired, and the first of them is not revoked.
pub reap-Reaped :
    (r : LeaseReaper) (now : ℕ)
    → IsSorted r.heap
    → Reaped r.revoked now r.heap (reap r now).0.heap (reap r now).1
unfolding reap
reap-Reaped r now s = reap_loop-Reaped r.revoked now r.heap r.leases s

-- No entry of a heap that a reap would take carries the id.
abbrev pub IsSpared : LeaseReaper → ℕ → String → Type 0
IsSpared r now id =
    All (λ e. str_eq e.lease.lease_id id ≡ true → is_dead r.revoked now e ≡ false) r.heap

get-reap_loop :
    (revoked : List String) (now : ℕ) (h : List Entry) (leases : Dict Lease) (id : String)
    → All (λ e. str_eq e.lease.lease_id id ≡ true → is_dead revoked now e ≡ false) h
    → Dict.get (reap_loop revoked now h leases).1 id ≡ Dict.get leases id
unfolding reap_loop
get-reap_loop revoked now [] leases id a = refl
get-reap_loop revoked now (e ∷ h) leases id a = ground (
  arith,
  get-remove leases e.lease.lease_id id,
  get-reap_loop revoked now h (Dict.remove leases e.lease.lease_id) id a.1,
)

-- A reap leaves the validity of a lease alone when no dead entry of the heap carries its id.
pub is_valid-reap :
    (r : LeaseReaper) (now : ℕ) (id : String) (later : ℕ)
    → IsSpared r now id
    → is_valid (reap r now).0 id later ≡ is_valid r id later
unfolding is_valid reap
is_valid-reap r now id later a = rw (get-reap_loop r.revoked now r.heap r.leases id a)

reap_loop-drop_revoked :
    (revoked : List String) (now : ℕ) (h : List Entry) (leases : Dict Lease)
    → All (λ e. now < e.expiry) h
    → (reap_loop revoked now (drop_revoked revoked h) leases).2 ≡ []
unfolding reap_loop drop_revoked is_dead
reap_loop-drop_revoked revoked now [] leases a = refl
reap_loop-drop_revoked revoked now (e ∷ h) leases a =
    elim (Bool-cases (Sets.member revoked e.lease.lease_id)) [
      | inl b ↦ rw b (reap_loop-drop_revoked revoked now h leases a.1)
      | inr b ↦ rw b (ground arith)
    ]

reap_loop-dead :
    (revoked : List String) (now : ℕ) (e : Entry) (h : List Entry) (leases : Dict Lease)
    → is_dead revoked now e ≡ true
    → (reap_loop revoked now (e ∷ h) leases).2
      ≡ e.lease ∷ (reap_loop revoked now h (Dict.remove leases e.lease.lease_id)).2
unfolding reap_loop
reap_loop-dead revoked now e h leases d = rw d

is_dead_of_revoked :
    (revoked : List String) (now : ℕ) (e : Entry)
    → Sets.member revoked e.lease.lease_id ≡ true
    → is_dead revoked now e ≡ true
unfolding is_dead
is_dead_of_revoked revoked now e m = ground arith

-- A revoked lease at the front of the heap is returned by the next reap, but once `next_expiry`
-- has looked at the heap no reap before the first expiry returns any revoked lease.
pub next_expiry_hides_revoked :
    (r : LeaseReaper) (e : Entry) (h : List Entry) (now : ℕ)
    → r.heap ≡ e ∷ h
    → Sets.member r.revoked e.lease.lease_id ≡ true
    → All (λ x. now < x.expiry) r.heap
    → ((rest : List Lease) × ((reap r now).1 ≡ e.lease ∷ rest))
      × ((reap (next_expiry r).0 now).1 ≡ [])
unfolding reap next_expiry
next_expiry_hides_revoked r e h now shape rev live = (
  (
    (reap_loop r.revoked now h (Dict.remove r.leases e.lease.lease_id)).2,
    ap (λ l. (reap_loop r.revoked now l r.leases).2) shape
        ∙ reap_loop-dead r.revoked now e h r.leases (is_dead_of_revoked r.revoked now e rev),
  ),
  reap_loop-drop_revoked r.revoked now r.heap r.leases live,
)
