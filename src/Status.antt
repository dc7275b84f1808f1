-- ===== src/Status.antt =====
-- pkg/pkg.go: the status of this node, and the transitions sent to `StatusUpdating`.
-- The channel holds one message; a send waits until the goroutine that reads it has made room, so
-- the state keeps all that was ever sent, newest first.
use vectory.Base.{
  ◌≡◌, ◌≢◌, refl, sym, ap, ◌∙◌, Bool, true, false, List, [], ◌∷◌, Bytes, bytes_same, bytes_same_iff,
  if◌then◌else◌, arith, Bool-cases, inl, inr,
}

-- `type NodeStatus string`, with its named constants.
pub data NodeStatus : Type 0 where
  start init healthy unhealthy rebalancing inactive : NodeStatus
  other : Bytes → NodeStatus

abbrev pub same_status : NodeStatus → NodeStatus → Bool
same_status start start = true
same_status init init = true
same_status healthy healthy = true
same_status unhealthy unhealthy = true
same_status rebalancing rebalancing = true
same_status inactive inactive = true
same_status (other a) (other b) = bytes_same a b
same_status _ _ = false

pub record Status : Type 0 where
  pub current : NodeStatus
  pub sent : List NodeStatus

abbrev pub initial : Status
initial = record { current = start; sent = [] }

unfoldable pub set_status : NodeStatus → Status → Status
set_status s p = if same_status p.current s then p else record { current = s; sent = s ∷ p.sent }

-- The statuses since the start, newest first: each differs from the one before it.
abbrev pub Changes : NodeStatus → List NodeStatus → Type 0
Changes first [] = Unit
Changes first (s ∷ []) = first ≢ s
Changes first (s ∷ t ∷ ss) = (t ≢ s) × Changes first (t ∷ ss)

abbrev pub latest : NodeStatus → List NodeStatus → NodeStatus
latest first [] = first
latest first (s ∷ ss) = s

-- What was sent is the history of the status: it ends in the current status, and no message
-- repeats the one before it.
pub record IsHistory (p : Status) : Type 0 where
  pub ends : latest start p.sent ≡ p.current
  pub changes : Changes start p.sent

same_status_refl : (s : NodeStatus) → same_status s s ≡ true
same_status_refl (other a) = (bytes_same_iff a a).1 refl
same_status_refl start = refl
same_status_refl init = refl
same_status_refl healthy = refl
same_status_refl unhealthy = refl
same_status_refl rebalancing = refl
same_status_refl inactive = refl

eq_of_same_status : (s t : NodeStatus) → same_status s t ≡ true → s ≡ t
eq_of_same_status (other a) (other b) h = ground (arith, bytes_same_iff a b)
eq_of_same_status start t h = ground arith
eq_of_same_status init t h = ground arith
eq_of_same_status healthy t h = ground arith
eq_of_same_status unhealthy t h = ground arith
eq_of_same_status rebalancing t h = ground arith
eq_of_same_status inactive t h = ground arith
eq_of_same_status (other a) t h = absurd (cc)

pub current-set_status : (s : NodeStatus) (p : Status) → (set_status s p).current ≡ s
unfolding set_status
current-set_status s p = ground (arith, eq_of_same_status p.current s)

Changes-cons :
    (s c : NodeStatus) (l : List NodeStatus)
    → latest start l ≡ c
    → c ≢ s
    → Changes start l
    → Changes start (s ∷ l)
Changes-cons s c [] e n h = λ q. n (sym e ∙ q)
Changes-cons s c (t ∷ l) e n h = (λ q. n (sym e ∙ q), h)

-- Setting the status keeps that: a status that is already there is not sent again.
pub set_status-IsHistory : (s : NodeStatus) (p : Status) → IsHistory p → IsHistory (set_status s p)
unfolding set_status
set_status-IsHistory s p v = elim (Bool-cases (same_status p.current s)) [
  | inl e ↦ rw e v
  | inr e ↦ rw e (record {
    ends = refl;
    changes = Changes-cons s p.current p.sent v.ends (λ q. differs e q) v.changes;
  })
]
  where
    differs : same_status p.current s ≡ false → p.current ≢ s
    differs e q = let h = ap (same_status p.current) q in let k = same_status_refl p.current in cc
