-- ===== src/Resolver/Life.antt =====
-- The life of a resolver, internal/grpc_client/resolver.go, with the listeners of
-- internal/engine/manager.go. The id of a cron entry and the client connection are of other packages;
-- a resolver is known by them and its endpoint.
pub mod Kept
pub mod Told
use vectory.Base.{
  List, [], ◌∷◌, ◌++◌, map, Option, none, some, Bytes, bytes_key, ℕ, Map, load, store, delete,
  nat_key,
}
use vectory.Errors.{Err}
use vectory.Cluster.{Routing, Floats}
use vectory.Manager.{IndexManager}
use vectory.Resolver.{Report, resolve_now}

pub record Resolver : Type 0 where
  pub target : Bytes
  pub cc : ℕ
  pub entry : ℕ

-- The listeners of the manager, and the entries of the scheduler.
pub record Listening : Type 0 where
  pub listeners : Map Bytes Resolver
  pub entries : Map ℕ Resolver

abbrev pub nobody : Listening
nobody = record { listeners = []; entries = [] }

unfoldable pub register_listener : Bytes → Resolver → Listening → Listening
register_listener key r l = record l { listeners = store key r l.listeners }

unfoldable pub unregister_listener : Bytes → Listening → Listening
unregister_listener key l = record l { listeners = delete key l.listeners }

-- What is around a resolver when it asks: the manager, and the routes of the cluster.
pub record Surroundings : Type 0 where
  pub floats : Floats
  pub route : Bytes → Option Routing × Option Err
  pub manager : IndexManager

-- A report to the client connection of a resolver; `none` is a panic.
abbrev pub Answer : Type 0
Answer = Resolver × Option Report

-- `Update` of a resolver, if its goroutine runs at once; one that runs later is the event `late`.
unfoldable pub update : Surroundings → Resolver → Answer
update w r = (r, resolve_now w.floats w.route w.manager r.target)

-- `notifyListeners`
unfoldable pub notify_listeners : Surroundings → Map Bytes Resolver → List Answer
notify_listeners w [] = []
notify_listeners w ((k, r) ∷ rs) = update w r ∷ notify_listeners w rs

-- `start`
unfoldable pub start : Surroundings → Resolver → Listening → Listening × List Answer
start w r l =
    let registered = register_listener r.target r l in
    (record registered { entries = store r.entry r registered.entries }, update w r ∷ [])

-- `Close`; the goroutines that had begun have run.
unfoldable pub close : Resolver → Listening → Listening
close r l =
    let left = unregister_listener r.target l in
    record left { entries = delete r.entry left.entries }

fire_entry : Surroundings → Option Resolver → List Answer
fire_entry w none = []
fire_entry w (some r) = update w r ∷ []

-- What happens: Build makes a resolver and starts it, gRPC closes one, the manager has rebalanced,
-- an entry of the scheduler is due, or a goroutine that an Update has started runs only now. Close waits
-- for the goroutines that have begun, and such a one has not: it may run after Close.
pub data Event : Type 0 where
  built : Resolver → Event
  closed : Resolver → Event
  rebalanced : Event
  due : ℕ → Event
  late : Resolver → Event

unfoldable pub happen : Surroundings → Event → Listening → Listening × List Answer
unfolding fire_entry
happen w (built r) l = start w r l
happen w (closed r) l = (close r l, [])
happen w rebalanced l = (l, notify_listeners w l.listeners)
happen w (due n) l = (l, fire_entry w (load n l.entries))
happen w (late r) l = (l, update w r ∷ [])

-- The answers that are given, in order, and what is left.
unfoldable pub run : List (Surroundings × Event) → Listening → Listening × List Answer
run [] l = (l, [])
run ((w, e) ∷ es) l =
    let (next, now) = happen w e l in let (last, later) = run es next in (last, now ++ later)

abbrev pub after : List (Surroundings × Event) → Listening
after es = (run es nobody).0
