-- ===== src/Authority/Lease/Heap.antt =====
-- The heap of leases: sorted by expiry, and what the loop of `reap` takes from it.
use the_soverign_imperia_cit.Base.{
  ℕ, ◌≤◌, ◌<◌, String, ◌≡◌, ◌⊎◌, refl, ap, List, [], ◌∷◌, ◌++◌, map, true, false, arith, All,
  Bool-cases, inl, inr,
}
use the_soverign_imperia_cit.Base.Dict
use the_soverign_imperia_cit.Base.Dict.{Dict, get-remove}
use the_soverign_imperia_cit.Base.Sets
use the_soverign_imperia_cit.Base.Sets.{member-discard}
use the_soverign_imperia_cit.Authority.Lease.{
  Lease, Entry, LeaseReaper, before, heappush, grant, drop_revoked, is_dead, reap_loop,
}

-- The heap is sorted by expiry.
abbrev pub IsSorted : List Entry → Type 0
IsSorted [] = Unit
IsSorted (e ∷ h) = All (λ x. e.expiry ≤ x.expiry) h × IsSorted h

All-heappush :
    (P : Entry → Type 0) (h : List Entry) (e : Entry) → All P h → P e → All P (heappush h e)
unfolding heappush
All-heappush P [] e ph pe = (pe, tt)
All-heappush P (x ∷ h) e ph pe = elim (Bool-cases (before e x)) [
  | inl b ↦ rw b (pe, ph)
  | inr b ↦ rw b (ph.0, All-heappush P h e ph.1 pe)
]

before-le : (a b : Entry) → before a b ≡ true → a.expiry ≤ b.expiry
unfolding before
before-le a b h = ground arith

not-before-le : (a b : Entry) → before a b ≡ false → b.expiry ≤ a.expiry
unfolding before
not-before-le a b h = ground arith

All-raise :
    (h : List Entry) (m n : ℕ) → m ≤ n → All (λ x. n ≤ x.expiry) h → All (λ x. m ≤ x.expiry) h
All-raise [] m n le a = a
All-raise (x ∷ h) m n le a = (omega arith, All-raise h m n le a.1)

pub heappush-IsSorted : (h : List Entry) (e : Entry) → IsSorted h → IsSorted (heappush h e)
unfolding heappush
heappush-IsSorted [] e s = (tt, tt)
heappush-IsSorted (x ∷ h) e s = elim (Bool-cases (before e x)) [
  | inl b ↦ rw b ((before-le e x b, All-raise h e.expiry x.expiry (before-le e x b) s.0), s)
  | inr b ↦ rw b (
    All-heappush (λ y. x.expiry ≤ y.expiry) h e s.0 (not-before-le e x b),
    heappush-IsSorted h e s.1,
  )
]

pub grant-IsSorted :
    (r : LeaseReaper) (id subject : String) (ttl now : ℕ)
    → IsSorted r.heap
    → IsSorted (grant r id subject ttl now).0.heap
unfolding grant
grant-IsSorted r id subject ttl now s = heappush-IsSorted r.heap _ s

pub drop_revoked-IsSorted :
    (revoked : List String) (h : List Entry) → IsSorted h → IsSorted (drop_revoked revoked h)
unfolding drop_revoked
drop_revoked-IsSorted revoked [] s = s
drop_revoked-IsSorted revoked (e ∷ h) s = elim (Bool-cases (Sets.member revoked e.lease.lease_id)) [
  | inl b ↦ rw b (drop_revoked-IsSorted revoked h s.1)
  | inr b ↦ rw b s
]

live_below :
    (revoked : List String) (now : ℕ) (e : Entry) → is_dead revoked now e ≡ false → now < e.expiry
unfolding is_dead
live_below revoked now e h = ground arith

All-later :
    (h : List Entry) (now m : ℕ) → now < m → All (λ x. m ≤ x.expiry) h → All (λ x. now < x.expiry) h
All-later [] now m lt a = a
All-later (x ∷ h) now m lt a = (omega arith, All-later h now m lt a.1)

-- The head, if there is one, is neither expired nor revoked.
abbrev pub IsHeadLive : List String → ℕ → List Entry → Type 0
IsHeadLive revoked now [] = Unit
IsHeadLive revoked now (e ∷ h) = (now < e.expiry) × (Sets.member revoked e.lease.lease_id ≡ false)

-- What an entry that goes is.
abbrev pub IsOver : List String → ℕ → Entry → Type 0
IsOver revoked now e = (e.expiry ≤ now) ⊎ (Sets.member revoked e.lease.lease_id ≡ true)

is_dead-IsOver :
    (revoked : List String) (now : ℕ) (e : Entry)
    → is_dead revoked now e ≡ true
    → IsOver revoked now e
unfolding is_dead
is_dead-IsOver revoked now e h = ground (arith, h)

unrevoked :
    (revoked : List String) (now : ℕ) (e : Entry)
    → is_dead revoked now e ≡ false
    → Sets.member revoked e.lease.lease_id ≡ false
unfolding is_dead
unrevoked revoked now e h = ground (arith, h)

-- One statement of the loop: nothing is lost, what goes had expired or been revoked, what stays is
-- unexpired, and its head is not revoked.
pub record Reaped (revoked : List String) (now : ℕ) (h : List Entry) (rest : List Entry)
    (dead : List Lease) : Type 0 where
  pub gone : List Entry
  pub split : h ≡ gone ++ rest
  pub returned : dead ≡ map (λ e. e.lease) gone
  pub were_dead : All (IsOver revoked now) gone
  pub head_is_live : IsHeadLive revoked now rest
  pub are_live : All (λ e. now < e.expiry) rest
  pub sorted : IsSorted rest

pub reap_loop-Reaped :
    (revoked : List String) (now : ℕ) (h : List Entry) (leases : Dict Lease)
    → IsSorted h
    → Reaped revoked now h (reap_loop revoked now h leases).0 (reap_loop revoked now h leases).2
unfolding reap_loop
reap_loop-Reaped revoked now [] leases s = record {
  gone = [];
  split = refl;
  returned = refl;
  were_dead = tt;
  head_is_live = tt;
  are_live = tt;
  sorted = tt;
}
reap_loop-Reaped revoked now (e ∷ h) leases s =
    let ih = reap_loop-Reaped revoked now h (Dict.remove leases e.lease.lease_id) s.1 in
    elim (Bool-cases (is_dead revoked now e)) [
      | inl b ↦ rw b (record {
        gone = e ∷ ih.gone;
        split = ap (◌∷◌ e) ih.split;
        returned = ap (◌∷◌ e.lease) ih.returned;
        were_dead = (is_dead-IsOver revoked now e b, ih.were_dead);
        head_is_live = ih.head_is_live;
        are_live = ih.are_live;
        sorted = ih.sorted;
      })
      | inr b ↦ rw b (record {
        gone = [];
        split = refl;
        returned = refl;
        were_dead = tt;
        head_is_live = (live_below revoked now e b, unrevoked revoked now e b);
        are_live =
            (live_below revoked now e b, All-later h now e.expiry (live_below revoked now e b) s.0);
        sorted = s;
      })
    ]
