-- ===== src/Processor/Gin.antt =====
-- `GinHandleFunc` of internal/processor/search.go and search_shard.go: the HTTP status and the body.
-- Binding the JSON of a request is of Gin: its outcome is an argument.
use vectory.Base.{
  ◌≡◌, ◌≢◌, refl, Bool, List, [], map, Option, none, some, bytes_key, load, ℕ, pos, ◌<ℤ◌, ◌>>=◌,
  if◌then◌else◌,
}
use vectory.Errors.{
  Err, message, index_not_found, Result, ok, err, is_index_not_found, is_shard_not_found,
}
use vectory.Faiss.{Library, Float32}
use vectory.Manager.{IndexManager}
use vectory.Merge.{Heap}
use vectory.Processor.{
  Pointer, by_score, pointer_key, Found, Remote, SearchRequest, SearchShardRequest, handle,
  handle_shard,
}
use vectory.Processor.Answers.{handle-unknown}

pub record Reply (B : Type 0) : Type 0 where
  pub status : ℕ
  pub body : Option B

abbrev pub bare : {B : Type 0} → ℕ → Reply B
bare n = record { status = n; body = none }

abbrev pub json : {B : Type 0} → B → Reply B
json b = record { status = 200; body = some b }

search_reply : Result (List (Option Found)) → Reply (List (Option Found))
search_reply (err e) = if is_index_not_found e then bare 404 else bare 500
search_reply (ok fs) = json fs

shard_reply : Found × Option Err → Reply Found
shard_reply (f, some e) = if is_shard_not_found e then bare 404 else bare 500
shard_reply (f, none) = json f

-- The request is missing where BindJSON gives an error; `none` is a panic of the handler.
unfoldable pub gin_shard : Library → IndexManager → Option SearchShardRequest → Option (Reply Found)
unfolding shard_reply
gin_shard lib i none = some (bare 400)
gin_shard lib i (some req) = (handle_shard lib i req >>= λ r. some (shard_reply r))

module _ (less : Float32 → Float32 → Bool) (heap : Heap Pointer (by_score less)) where
  unfoldable pub gin_search :
      Library → Remote → IndexManager → Option SearchRequest → Option (Reply (List (Option Found)))
  unfolding search_reply
  gin_search lib remote i none = some (bare 400)
  gin_search lib remote i (some req) =
      (handle less heap lib remote i req >>= λ r. some (search_reply r))

  -- A search of an index that is not known, with a limit above zero and an input at least, is
  -- answered with the status 200, and each of its results holds the message that the index is not found.
  pub gin_search-unknown :
      (lib : Library) (remote : Remote) (i : IndexManager) (req : SearchRequest)
      → load req.index_name i.index_manifests ≡ none
      → pos 0 <ℤ req.limit
      → req.input ≢ []
      → gin_search lib remote i (some req)
        ≡ some (
            json
              (map (λ x. some (record { result = []; error = message index_not_found })) req.input))
  unfolding gin_search search_reply
  gin_search-unknown lib remote i req l p n =
      rw (handle-unknown less heap lib remote i req l p n) refl
