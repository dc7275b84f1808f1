-- ===== src/Manager/Schedule.antt =====
-- The reload that the scheduler fires (`reloadCallback`): it swaps, or in cluster mode stages and
-- signals, as `setClusterReloadCallback` of internal/engine/manager.go sets it. The index and its entry in
-- the store are one object, so the store changes with it.
use vectory.Base.{Option, none, some, Bytes, bytes_key, load, store, ℤ, ◌>>=◌, ◌≡◌, refl, subst}
use vectory.Errors.{Err, ok, err}
use vectory.Faiss.{
  FaissIndex, Native, Loader, Outcome, Callback, swap, stage_and_signal, reload, stage_reload,
}
use vectory.Index.{Index, faiss, mock}
use vectory.Manager.{IndexManager}
use vectory.Manager.Revision.{Etcd, Membership, signal_ready}
use vectory.Faiss.Deleting.{Holds, reload-Holds, stage_reload-Holds}
use vectory.Manager.Handles.{AllServe, store-AllServe}
use vectory.Manager.Rebalance.Steps.{bind_some}

-- The manager and etcd after the callback, with the error that it returned, which is only logged.
abbrev pub Fired : Type 0
Fired = IndexManager × Etcd × Option Err

abbrev pub put_index : Bytes → IndexManager → FaissIndex → Native → IndexManager
put_index key i f n = record i { engine_store = store key (faiss f) i.engine_store; native = n }

swapped : Bytes → IndexManager → Etcd → Outcome (Unit {0}) → Fired
swapped key i e (f, n, err x) = (put_index key i f n, e, some x)
swapped key i e (f, n, ok u) = (put_index key i f n, e, none)

signalled : IndexManager → Etcd × Option Err → Fired
signalled i (e, x) = (i, e, x)

stage_then_signal : Membership → Bytes → Bytes → IndexManager → Etcd → Outcome ℤ → Option Fired
unfolding signalled
stage_then_signal c name key i e (f, n, err x) = some (put_index key i f n, e, some x)
stage_then_signal c name key i e (f, n, ok r) = do
  answer ← signal_ready c (put_index key i f n) name r e
  some (signalled (put_index key i f n) answer)

fire_callback :
    Loader → Membership → Bytes → IndexManager → Etcd → FaissIndex → Callback → Option Fired
unfolding swapped stage_then_signal
fire_callback l c key i e f swap = some (swapped key i e (reload l f i.native))
fire_callback l c key i e f (stage_and_signal name) =
    stage_then_signal c name key i e (stage_reload l f i.native)

fire_index : Loader → Membership → Bytes → IndexManager → Etcd → Option Index → Option Fired
unfolding fire_callback
fire_index l c key i e none = some (i, e, none)
fire_index l c key i e (some (mock m)) = some (i, e, none)
fire_index l c key i e (some (faiss f)) = fire_callback l c key i e f f.callback

-- The schedule entry of the shard under a key of the store is due; `none` is a panic. A key that is
-- not there, and a mock, have no entry.
unfoldable pub fire : Loader → Membership → Bytes → IndexManager → Etcd → Option Fired
unfolding fire_index
fire l c key i e = fire_index l c key i e (load key i.engine_store)

-- Firing keeps every index serving.
swapped-AllServe :
    (key : Bytes) (i : IndexManager) (e : Etcd) (o : Outcome (Unit {0}))
    → Holds o.0
    → AllServe i
    → AllServe (swapped key i e o).0
unfolding swapped
swapped-AllServe key i e (f, n, err x) h a = store-AllServe key (faiss f) n i h a
swapped-AllServe key i e (f, n, ok u) h a = store-AllServe key (faiss f) n i h a

staged-AllServe :
    (c : Membership) (name key : Bytes) (i : IndexManager) (e : Etcd) (o : Outcome ℤ) (w : Fired)
    → Holds o.0
    → AllServe i
    → stage_then_signal c name key i e o ≡ some w
    → AllServe w.0
unfolding stage_then_signal signalled
staged-AllServe c name key i e (f, n, err x) w h a q =
    let same : (put_index key i f n, e, some x) ≡ w = cc in
    subst (λ (y : Fired). AllServe y.0) same (store-AllServe key (faiss f) n i h a)
staged-AllServe c name key i e (f, n, ok r) w h a q =
    let (answer, _, last) = bind_some (signal_ready c (put_index key i f n) name r e) _ w q in
    let same : signalled (put_index key i f n) answer ≡ w = cc in
    subst (λ (y : Fired). AllServe y.0) same (store-AllServe key (faiss f) n i h a)

callback-AllServe :
    (l : Loader) (c : Membership) (key : Bytes) (i : IndexManager) (e : Etcd) (f : FaissIndex)
    (k : Callback) (w : Fired)
    → Holds f
    → AllServe i
    → fire_callback l c key i e f k ≡ some w
    → AllServe w.0
unfolding fire_callback
callback-AllServe l c key i e f swap w h a q =
    let same : swapped key i e (reload l f i.native) ≡ w = cc in
    subst (λ (y : Fired). AllServe y.0) same
      (swapped-AllServe key i e (reload l f i.native) (reload-Holds l f i.native h) a)
callback-AllServe l c key i e f (stage_and_signal name) w h a q =
    staged-AllServe c name key i e (stage_reload l f i.native) w (stage_reload-Holds l f i.native h)
      a q

index-AllServe :
    (l : Loader) (c : Membership) (key : Bytes) (i : IndexManager) (e : Etcd) (o : Option Index)
    (w : Fired)
    → load key i.engine_store ≡ o
    → AllServe i
    → fire_index l c key i e o ≡ some w
    → AllServe w.0
unfolding fire_index
index-AllServe l c key i e none w g a q =
    let same : (i, e, none) ≡ w = cc in subst (λ (y : Fired). AllServe y.0) same a
index-AllServe l c key i e (some (mock m)) w g a q =
    let same : (i, e, none) ≡ w = cc in subst (λ (y : Fired). AllServe y.0) same a
index-AllServe l c key i e (some (faiss f)) w g a q =
    callback-AllServe l c key i e f f.callback w (a key (faiss f) g) a q

pub fire-AllServe :
    (l : Loader) (c : Membership) (key : Bytes) (i : IndexManager) (e : Etcd) (w : Fired)
    → AllServe i
    → fire l c key i e ≡ some w
    → AllServe w.0
unfolding fire
fire-AllServe l c key i e w a q = index-AllServe l c key i e (load key i.engine_store) w refl a q
