-- ===== src/Manager/Life.antt =====
-- Everything that happens to the manager of a node, as a relation of steps: it starts empty, and
-- loads, deletes, rebalances, commits and fires scheduled reloads in any order.
pub mod Serving
use vectory.Base.{◌≡◌, Bool, Option, some, Bytes, ℤ, ℕ}
use vectory.Errors.{Err, Result}
use vectory.Status.{Status}
use vectory.Shard.{IndexManifest}
use vectory.Faiss.{Native}
use vectory.Manager.{IndexManager, Mode, Tools, load_index, delete_index}
use vectory.Manager.Rebalance.{rebalance}
use vectory.Manager.Revision.{Etcd, Membership, commit_index}
use vectory.Manager.Schedule.{fire}
use vectory.Manager.Start.{fresh}

pub data Step (t : Tools) (i j : IndexManager) : Type 0 where
  loads :
      (owns : Option (Bytes → Bool)) (m : IndexManifest) (r : Result (ℕ × ℕ))
      → load_index t owns m i ≡ some (j, r)
      → Step t i j
  deletes : (name : Bytes) → delete_index name i ≡ some j → Step t i j
  rebalances : (need : Bytes → Bool) → rebalance t need i ≡ some j → Step t i j
  commits :
      (c : Option Membership) (name : Bytes) (r : ℤ) (e d : Etcd)
      → commit_index c name r i e ≡ some (j, d)
      → Step t i j
  fires :
      (c : Membership) (key : Bytes) (e d : Etcd) (x : Option Err)
      → fire t.loader c key i e ≡ some (j, d, x)
      → Step t i j

-- The managers that a node can come to.
pub data Reaches (t : Tools) : IndexManager → Type 0 where
  begins : (mode : Mode) (s : Status) (n : Native) → Reaches t (fresh mode s n)
  then_steps : {i j : IndexManager} → Reaches t i → Step t i j → Reaches t j
