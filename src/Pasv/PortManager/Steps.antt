-- ===== src/Pasv/PortManager/Steps.antt =====
-- The steps of many sessions on the pool, and the invariant that each of them keeps.
use iot_ftp_upload_gateway.Base.{
  ℕ, ◌+◌, ◌≤◌, ◌≡◌, refl, ◌∙◌, true, false, ◌||◌, List, ◌∷◌, arith, contains, length, remove,
  Distinct, contains-remove, remove-Distinct, length-remove,
}
use iot_ftp_upload_gateway.Pasv.PortManager.{PortManager, candidate, reserve, release}

-- The pool, the ports that are reserved and being bound, and the ports of live guards.
pub record System : Type 0 where
  pub pool : PortManager
  pub pending : List ℕ
  pub guards : List ℕ

pub data Step (s t : System) : Type 0 where
  -- an allocation moves the cursor
  draw : t ≡ record s { pool = (candidate s.pool).1 } → Step s t
  -- an allocation reserves the candidate that it holds
  take :
      (port : ℕ)
      → s.pool.range.start ≤ port
      → port ≤ s.pool.range.end
      → (reserve port s.pool).0 ≡ true
      → t ≡ record s { pool = (reserve port s.pool).1; pending = port ∷ s.pending }
      → Step s t
  bound :
      (port : ℕ)
      → contains port s.pending ≡ true
      → t ≡ record s { pending = remove port s.pending; guards = port ∷ s.guards }
      → Step s t
  refused :
      (port : ℕ)
      → contains port s.pending ≡ true
      → t ≡ record s { pool = release port s.pool; pending = remove port s.pending }
      → Step s t
  dropped :
      (port : ℕ)
      → contains port s.guards ≡ true
      → t ≡ record s { pool = release port s.pool; guards = remove port s.guards }
      → Step s t

pub data Reach (s : System) : System → Type 0 where
  here : Reach s s
  next : {t u : System} → Reach s t → Step t u → Reach s u

-- What each port's standing is, and what the lists are.
pub record Inv (s : System) : Type 0 where
  pub members : (x : ℕ) → contains x s.pool.in_use ≡ (contains x s.pending || contains x s.guards)
  pub apart : (x : ℕ) → contains x s.pending ≡ true → contains x s.guards ≡ false
  pub in_range :
      (x : ℕ) → contains x s.pool.in_use ≡ true → (s.pool.range.start ≤ x) × (x ≤ s.pool.range.end)
  pub distinct_in_use : Distinct s.pool.in_use
  pub distinct_pending : Distinct s.pending
  pub distinct_guards : Distinct s.guards
  pub size : length s.pool.in_use ≡ length s.pending + length s.guards

take-Inv :
    (s : System) (port : ℕ)
    → s.pool.range.start ≤ port
    → port ≤ s.pool.range.end
    → (reserve port s.pool).0 ≡ true
    → Inv s
    → Inv (record s { pool = (reserve port s.pool).1; pending = port ∷ s.pending })
take-Inv s port l h f v = record {
  members = λ x. ground (arith, v.members x);
  apart = λ x k. ground (arith, v.apart x, v.members x);
  in_range = λ x k. ground (arith, v.in_range x);
  distinct_in_use = ground (arith, v.distinct_in_use);
  distinct_pending = ground (arith, v.distinct_pending, v.members port);
  distinct_guards = v.distinct_guards;
  size = ground (arith, v.size);
}

bound-Inv :
    (s : System) (port : ℕ)
    → contains port s.pending ≡ true
    → Inv s
    → Inv (record s { pending = remove port s.pending; guards = port ∷ s.guards })
bound-Inv s port k v = record {
  members = λ x. ground (arith, v.members x, contains-remove port x s.pending);
  apart = λ x h. ground (arith, v.apart x, contains-remove port x s.pending);
  in_range = v.in_range;
  distinct_in_use = v.distinct_in_use;
  distinct_pending = remove-Distinct port s.pending v.distinct_pending;
  distinct_guards = (v.apart port k, v.distinct_guards);
  size = omega (arith, v.size, length-remove port s.pending v.distinct_pending k);
}

refused-Inv :
    (s : System) (port : ℕ)
    → contains port s.pending ≡ true
    → Inv s
    → Inv (record s { pool = release port s.pool; pending = remove port s.pending })
refused-Inv s port k v = record {
  members = λ x. ground (
    arith,
    v.members x,
    v.apart x,
    contains-remove port x s.pending,
    contains-remove port x s.pool.in_use,
  );
  apart = λ x h. ground (arith, v.apart x, contains-remove port x s.pending);
  in_range = λ x h. ground (arith, v.in_range x, contains-remove port x s.pool.in_use);
  distinct_in_use = remove-Distinct port s.pool.in_use v.distinct_in_use;
  distinct_pending = remove-Distinct port s.pending v.distinct_pending;
  distinct_guards = v.distinct_guards;
  size = omega (
    arith,
    v.size,
    length-remove port s.pending v.distinct_pending k,
    length-remove port s.pool.in_use v.distinct_in_use (ground (arith, v.members port)),
  );
}

dropped-Inv :
    (s : System) (port : ℕ)
    → contains port s.guards ≡ true
    → Inv s
    → Inv (record s { pool = release port s.pool; guards = remove port s.guards })
dropped-Inv s port k v = record {
  members = λ x. ground (
    arith,
    v.members x,
    v.apart x,
    contains-remove port x s.guards,
    contains-remove port x s.pool.in_use,
  );
  apart = λ x h. ground (arith, v.apart x, contains-remove port x s.guards);
  in_range = λ x h. ground (arith, v.in_range x, contains-remove port x s.pool.in_use);
  distinct_in_use = remove-Distinct port s.pool.in_use v.distinct_in_use;
  distinct_pending = v.distinct_pending;
  distinct_guards = remove-Distinct port s.guards v.distinct_guards;
  size = omega (
    arith,
    v.size,
    length-remove port s.guards v.distinct_guards k,
    length-remove port s.pool.in_use v.distinct_in_use (ground (arith, v.members port)),
  );
}

-- Every step keeps the invariant.
pub Step-Inv : (s t : System) → Step s t → Inv s → Inv t
Step-Inv s t (draw e) v = rw e (record {
  members = v.members;
  apart = v.apart;
  in_range = v.in_range;
  distinct_in_use = v.distinct_in_use;
  distinct_pending = v.distinct_pending;
  distinct_guards = v.distinct_guards;
  size = v.size;
})
Step-Inv s t (take port l h f e) v = rw e (take-Inv s port l h f v)
Step-Inv s t (bound port k e) v = rw e (bound-Inv s port k v)
Step-Inv s t (refused port k e) v = rw e (refused-Inv s port k v)
Step-Inv s t (dropped port k e) v = rw e (dropped-Inv s port k v)

pub Reach-Inv : {s t : System} → Inv s → Reach s t → Inv t
Reach-Inv v here = v
Reach-Inv v (next {t} {u} r st) = Step-Inv t u st (Reach-Inv v r)

Step-range : (s t : System) → Step s t → t.pool.range ≡ s.pool.range
Step-range s t (draw e) = rw e
Step-range s t (take port l h f e) = rw e (ground arith)
Step-range s t (bound port k e) = rw e
Step-range s t (refused port k e) = rw e
Step-range s t (dropped port k e) = rw e

pub Reach-range : {s t : System} → Reach s t → t.pool.range ≡ s.pool.range
Reach-range here = refl
Reach-range (next {t} {u} r st) = Step-range t u st ∙ Reach-range r
