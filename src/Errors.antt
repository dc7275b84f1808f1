-- ===== src/Errors.antt =====
-- internal/config/consts.go (the sentinel errors) and internal/utils/error.go (errors with a code).
use vectory.Base.{
  ◌≢◌, ◌⊎◌, inl, inr, [], ◌∷◌, ℕ, ◌≡◌, refl, Bool, true, false, Option, none, some, Bytes, codes,
}

-- `plain` is an error that another package made, or fmt.Errorf, by its message.
pub data Err : Type 0 where
  wrong_input_dimension empty_input nil_index invalid_index_type invalid_schedule_type : Err
  already_reloading index_revision_up_to_date unknown_status node_not_available : Err
  cluster_not_initialised type_assertion index_not_found shard_not_found : Err
  shard_file_not_found get_revision_failed output_dimension partly_success no_success : Err
  get_manifests_failed resolve_index_shard resolve_no_available_node invalid_limit : Err
  reload_conf_not_found unmarshal manifest_validate_failed bad_request : Err
  plain : Bytes → Err

-- `err.Error()`
unfoldable pub message : Err → Bytes
message wrong_input_dimension = codes "wrong input dimension"
message empty_input = codes "empty input vector"
message nil_index = codes "index is not loaded"
message invalid_index_type = codes "invalid index type"
message invalid_schedule_type = codes "invalid schedule type"
message already_reloading = codes "index is reloading"
message index_revision_up_to_date = codes "index is up-to-date"
message unknown_status = codes "unknown node status"
message node_not_available = codes "node under unavailable status"
message cluster_not_initialised = codes "cluster not initialised hash ring is nil"
message type_assertion = codes "type assertion failed"
message index_not_found = codes "index not found"
message shard_not_found = codes "shard not found"
message shard_file_not_found = codes "shard file not found"
message get_revision_failed = codes "get index revision failed"
message output_dimension = codes "error output dimension"
message partly_success = codes "load shards partly success"
message no_success = codes "load shards no success"
message get_manifests_failed = codes "get manifest failed"
message resolve_index_shard = codes "cannot resolve shardKey"
message resolve_no_available_node = codes "no available node resolved"
message invalid_limit = codes "limit must be greater than zero"
message reload_conf_not_found = codes "reload config is nil"
message unmarshal = codes "unmarshal failed"
message manifest_validate_failed = codes "invalid index manifest"
message bad_request = codes "invalid request body"
message (plain m) = m

-- `errors.Is(err, target)` for the sentinels that the program tests for.
abbrev pub is_up_to_date : Err → Bool
is_up_to_date index_revision_up_to_date = true
is_up_to_date _ = false

abbrev pub is_shard_not_found : Err → Bool
is_shard_not_found shard_not_found = true
is_shard_not_found _ = false

abbrev pub is_index_not_found : Err → Bool
is_index_not_found index_not_found = true
is_index_not_found _ = false

abbrev pub is_partly_success : Err → Bool
is_partly_success partly_success = true
is_partly_success _ = false

pub data Result {ℓ} (A : Type ℓ) : Type ℓ where
  ok : A → Result A
  err : Err → Result A

-- A Go error as `Code` sees it: one of the program's own, one with a Cause method (which may return
-- nil), or another.
pub data GoError : Type 0 where
  internal : GoError → ℕ → GoError
  causer : GoError → GoError
  causer_nil : GoError
  leaf : GoError

-- `Code(err)`; `none` is nil.
unfoldable pub code_of : GoError → ℕ
code_of (internal e c) = c
code_of (causer e) = code_of e
code_of causer_nil = 0
code_of leaf = 10000

unfoldable pub code : Option GoError → ℕ
unfolding code_of
code none = 0
code (some e) = code_of e

-- `Wrap(err, msg, code)`; errors.Wrap of github.com/pkg/errors is an argument.
unfoldable pub wrap : (GoError → Bytes → GoError) → Option GoError → Bytes → ℕ → Option GoError
wrap with_message none msg c = none
wrap with_message (some e) [] c = some (internal e c)
wrap with_message (some e) (b ∷ msg) c = some (internal (with_message e (b ∷ msg)) c)

-- `New(msg, code)`; errors.New is an argument.
unfoldable pub new : (Bytes → GoError) → Bytes → ℕ → GoError
new make msg c = internal (make msg) c

-- Wrapping sets the code of an error, whatever its message and its cause, and makes no error of nil.
pub code-wrap :
    (with_message : GoError → Bytes → GoError) (o : Option GoError) (msg : Bytes) (c : ℕ)
    → ((o ≡ none) × (wrap with_message o msg c ≡ none) × (code (wrap with_message o msg c) ≡ 0))
      ⊎ ((o ≢ none) × (code (wrap with_message o msg c) ≡ c))
unfolding code wrap
code-wrap w none msg c = inl (refl, refl, refl)
code-wrap w (some e) [] c = inr (cc, refl)
code-wrap w (some e) (b ∷ msg) c = inr (cc, refl)
