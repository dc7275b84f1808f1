-- ===== src/Manager/Life/Serving.antt =====
-- Every manager that a node can come to serves with all its indexes, so that it can rebalance and
-- delete without a panic.
use vectory.Base.{◌≡◌, sym, ◌∙◌, subst, Option, none, some, Bytes, bytes_key, load, delete}
use vectory.Shard.{IndexManifest, generate_unique_shards}
use vectory.Faiss.{Native}
use vectory.Manager.{IndexManager, Tools, delete_manifest, delete_index, Mode}
use vectory.Manager.Handles.{AllServe, load_index-AllServe}
use vectory.Manager.Rebalance.Steps.{bind_some}
use vectory.Manager.Rebalance.Total.{delete_shards-Goes, rebalance-AllServe}
use vectory.Manager.Revision.Commit.{commit_index-AllServe}
use vectory.Manager.Schedule.{fire-AllServe}
use vectory.Manager.Life.{
  Step, loads, deletes, rebalances, commits, fires, Reaches, begins, then_steps,
}
use vectory.Manager.Start.{fresh}
use vectory.Status.{Status}

removed-AllServe :
    (name : Bytes) (i j : IndexManager) (o : Option IndexManifest)
    → AllServe i
    → delete_manifest name i o ≡ some j
    → AllServe j
unfolding delete_manifest
removed-AllServe name i j none a q = let same : i ≡ j = cc in subst AllServe same a
removed-AllServe name i j (some m) a q =
    let (ss, _, run) = bind_some (generate_unique_shards m) _ j q in
    let (d, e, b) =
      delete_shards-Goes ss (record i { index_manifests = delete name i.index_manifests }) a in
    let both : some d ≡ some j = sym e ∙ run in let same : d ≡ j = cc in subst AllServe same b

deleted-AllServe :
    (name : Bytes) (i j : IndexManager) → AllServe i → delete_index name i ≡ some j → AllServe j
unfolding delete_index
deleted-AllServe name i j a q = removed-AllServe name i j _ a q

Step-AllServe : (t : Tools) (i j : IndexManager) → Step t i j → AllServe i → AllServe j
Step-AllServe t i j (loads owns m r q) a = load_index-AllServe t owns m i j r a q
Step-AllServe t i j (deletes name q) a = deleted-AllServe name i j a q
Step-AllServe t i j (rebalances need q) a = rebalance-AllServe t need i j a q
Step-AllServe t i j (commits c name r e d q) a = commit_index-AllServe c name r i j e d a q
Step-AllServe t i j (fires c key e d x q) a = fire-AllServe t.loader c key i e (j, d, x) a q

fresh-AllServe : (mode : Mode) (s : Status) (n : Native) → AllServe (fresh mode s n)
unfolding fresh load
fresh-AllServe mode s n k x q = absurd (cc)

pub Reaches-AllServe : (t : Tools) {i : IndexManager} → Reaches t i → AllServe i
Reaches-AllServe t (begins mode s n) = fresh-AllServe mode s n
Reaches-AllServe t (then_steps {i} {j} r s) = Step-AllServe t i j s (Reaches-AllServe t r)
