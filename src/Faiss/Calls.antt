-- ===== src/Faiss/Calls.antt =====
-- Sequences of calls on one shard of an index.
use vectory.Base.{ℤ, List, [], ◌∷◌}
use vectory.Faiss.{FaissIndex, Native, Loader, stage_reload, commit_staged, discard_staged}

-- The order of calls on one shard: the mutexes make each a step of its own.
pub data Call : Type 0 where
  stage : Loader → Call
  commit : ℤ → Call
  discards : Call

unfoldable pub step : Call → FaissIndex × Native → FaissIndex × Native
step (stage l) (f, n) = let o = stage_reload l f n in (o.0, o.1)
step (commit r) (f, n) = let o = commit_staged r f n in (o.0, o.1)
step discards (f, n) = discard_staged f n

unfoldable pub run : List Call → FaissIndex × Native → FaissIndex × Native
run [] s = s
run (c ∷ cs) s = run cs (step c s)
