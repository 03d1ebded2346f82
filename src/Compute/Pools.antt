-- ===== src/Compute/Pools.antt =====
-- services/instance_pools.py. A request is its `model_dump(exclude_none=True)`.
use minilake.Prelude.{
  String, ◌<>◌, Bool, not, ◌&&◌, Option, none, some, [], ◌==◌, string_eq, option_eq, any, is_empty,
}
use minilake.Prelude.Dict.{Dict, get, put, remove, update, values}
use minilake.Json.{str, dict, entry, no_entries}
use minilake.Text.{join}
use minilake.Errors.{Exec, pure, gets, or_raise, ◌>>=◌, ◌>>◌, modify, raise_if, error}
use minilake.Compute.State.{State, Stored, text_at}
use minilake.Compute.Policies.{given, users_of}

unfoldable pub get_pool_or_404 : String → Exec State Stored
get_pool_or_404 id = do
  pools ← gets (λ s. s.pools)
  or_raise (get pools id)
      (error "RESOURCE_DOES_NOT_EXIST" ("Instance pool '" <> id <> "' not found") 404)

abbrev text_or_empty : Option String → String
text_or_empty none = ""
text_or_empty (some s) = s

-- `any(p.get("instance_pool_name") == name for p in …)`
unfoldable pub pool_name_taken : Dict String Stored → Option String → Bool
pool_name_taken pools name = any (λ p. text_at p "instance_pool_name" == name) (values pools)

-- What `create_instance_pool` stores.
unfoldable pub new_pool : String → Stored → Stored
new_pool pool_id req =
    put (put (put req "instance_pool_id" (str pool_id)) "state" (str "ACTIVE")) "default_tags" (
      dict (
        entry "DatabricksInstancePoolId" (str pool_id) (
          entry "DatabricksInstancePoolCreatorId" (str "minilake-user")
            (entry "Vendor" (str "Databricks") no_entries))))

unfoldable pub create_instance_pool : String → Stored → Exec State String
unfolding pool_name_taken
create_instance_pool pool_id req = do
  raise_if (not (given (text_at req "instance_pool_name")))
      (error "INVALID_PARAMETER_VALUE" "instance_pool_name is required" 400)
  pools ← gets (λ s. s.pools)
  raise_if (pool_name_taken pools (text_at req "instance_pool_name")) (
      error "RESOURCE_ALREADY_EXISTS"
        ("An instance pool named '"
          <> text_or_empty (text_at req "instance_pool_name")
          <> "' already exists")
        400)
  modify (λ s. record s { pools = put s.pools pool_id (new_pool pool_id req) })
  pure pool_id

-- The request's dict holds the id too.
unfoldable pub edit_instance_pool : String → Stored → Exec State (Unit {0})
unfolding get_pool_or_404
edit_instance_pool pool_id req = do
  stored ← get_pool_or_404 pool_id
  raise_if
      (given (text_at req "node_type_id")
        && given (text_at stored "node_type_id")
        && not (text_at req "node_type_id" == text_at stored "node_type_id"))
      (error "INVALID_PARAMETER_VALUE" "node_type_id cannot be changed on an existing instance pool"
        400)
  modify λ s. record s {
    pools = put s.pools pool_id (update stored (put req "instance_pool_id" (str pool_id)));
  }

unfoldable pub delete_instance_pool : String → Exec State (Unit {0})
unfolding get_pool_or_404 users_of
delete_instance_pool pool_id = do
  get_pool_or_404 pool_id
  clusters ← gets (λ s. s.clusters)
  raise_if (not (is_empty (users_of "instance_pool_id" pool_id clusters))) (
      error "INVALID_STATE"
        ("Instance pool '"
          <> pool_id
          <> "' is in use by cluster(s): "
          <> join ", " (users_of "instance_pool_id" pool_id clusters))
        400)
  modify (λ s. record s { pools = remove s.pools pool_id })

unfoldable pub reset_pools : State → State
reset_pools s = record s { pools = [] }

unfoldable pub restore_pools : Dict String Stored → State → State
restore_pools saved s = record s { pools = saved }
