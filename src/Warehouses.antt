-- ===== src/Warehouses.antt =====
-- services/sql_warehouses.py. Of the DuckDB pool only which warehouses have a connection is modelled.
-- To make a connection may fail, by the exception that a request is given; to close one is taken to
-- succeed.
pub mod Connections
use minilake.Prelude.{
  ℕ, ◌+◌, String, ◌<>◌, Bool, true, false, not, Option, none, some, List, [], ◌∷◌, string_eq,
  is_some, get_or, nonempty, if◌then◌else◌,
}
use minilake.Prelude.Int.{ℤ, pos}
use minilake.Prelude.Dict.{Dict, get, has, put, remove, values}
use minilake.Errors.{
  Exec, Exception, pure, gets, or_raise, ◌>>=◌, ◌>>◌, modify, raise_if, error, ok, raised,
}

pub data WarehouseState : Type 0 where
  running stopped : WarehouseState

pub record Request : Type 0 where
  pub name : String
  pub cluster_size : String
  pub comment : Option String
  pub auto_stop_mins : Option ℤ
  pub min_num_clusters : Option ℤ
  pub max_num_clusters : Option ℤ
  pub enable_photon : Option Bool
  pub enable_serverless_compute : Option Bool
  pub spot_instance_policy : Option String
  pub warehouse_type : Option String

pub record Warehouse : Type 0 where
  pub id : String
  pub name : String
  pub cluster_size : String
  pub state : WarehouseState
  pub comment : Option String
  pub created_at : ℕ
  pub updated_at : ℕ
  pub auto_stop_mins : ℤ
  pub min_num_clusters : ℤ
  pub max_num_clusters : ℤ
  pub num_clusters : ℤ
  pub enable_photon : Bool
  pub enable_serverless_compute : Bool
  pub spot_instance_policy : String
  pub warehouse_type : String
  pub creator_name : String
  pub odbc_path : String

pub record State : Type 0 where
  pub warehouses : Dict String Warehouse
  -- the warehouses that the pool, if there is one, holds a connection for
  pub has_pool : Bool
  pub connections : Dict String (Unit {0})

abbrev or_text : Option String → String → String
or_text none d = d
or_text (some t) d = if nonempty t then t else d

-- With `identity.USER_NAME` for the creator.
unfoldable pub new_warehouse : String → ℕ → Request → Warehouse
new_warehouse id now req = record {
  id = id;
  name = req.name;
  cluster_size = req.cluster_size;
  state = running;
  comment = req.comment;
  created_at = now;
  updated_at = now;
  auto_stop_mins = get_or req.auto_stop_mins (pos 120);
  min_num_clusters = get_or req.min_num_clusters (pos 1);
  max_num_clusters = get_or req.max_num_clusters (pos 1);
  num_clusters = pos 1;
  enable_photon = get_or req.enable_photon true;
  enable_serverless_compute = get_or req.enable_serverless_compute false;
  spot_instance_policy = or_text req.spot_instance_policy "COST_OPTIMIZED";
  warehouse_type = or_text req.warehouse_type "PRO";
  creator_name = "minilake-user";
  odbc_path = "/sql/1.0/warehouses/" <> id;
}

-- duckdb_pool.py's `get_warehouse_connection`: a connection that is there is kept. `failure` is what
-- `mkdir` or `duckdb.connect` raises, or none.
unfoldable pub get_warehouse_connection : Option Exception → String → Exec State (Unit {0})
get_warehouse_connection failure id s = if has s.connections id then (ok tt, s) else elim failure [
  | some x ↦ (raised x, s)
  | none ↦ (ok tt, record s { connections = put s.connections id tt })
]

-- The warehouse is stored before the pool is asked for its connection.
unfoldable pub create_warehouse : Option Exception → String → ℕ → Request → Exec State String
unfolding get_warehouse_connection
create_warehouse failure id now req = do
  modify (λ s. record s { warehouses = put s.warehouses id (new_warehouse id now req) })
  pool ← gets (λ s. s.has_pool)
  if pool then get_warehouse_connection failure id else pure tt
  pure id

abbrev pub warehouse_not_found : String → Exception
warehouse_not_found id = error "NOT_FOUND" ("Warehouse '" <> id <> "' not found") 404

unfoldable pub get_warehouse : String → Exec State Warehouse
get_warehouse id = do
  warehouses ← gets (λ s. s.warehouses)
  or_raise (get warehouses id) (warehouse_not_found id)

unfoldable pub list_warehouses : State → List Warehouse
list_warehouses s = values s.warehouses

-- `start_warehouse` and `stop_warehouse` differ in the state that they write.
unfoldable pub set_state : WarehouseState → String → Exec State Warehouse
unfolding get_warehouse
set_state target id = do
  warehouse ← get_warehouse id
  modify λ s. record s { warehouses = put s.warehouses id (record warehouse { state = target }) }
  pure (record warehouse { state = target })

unfoldable pub start_warehouse : String → Exec State Warehouse
unfolding set_state
start_warehouse id = set_state running id

unfoldable pub stop_warehouse : String → Exec State Warehouse
unfolding set_state
stop_warehouse id = set_state stopped id

unfoldable pub delete_warehouse : String → Exec State (Unit {0})
unfolding get_warehouse
delete_warehouse id = do
  get_warehouse id
  modify
      λ s. record s { connections = if s.has_pool then remove s.connections id else s.connections }
  modify (λ s. record s { warehouses = remove s.warehouses id })

-- `reset`: the pool closes every connection, and no warehouse is left.
unfoldable pub reset : State → State
reset s = record s { warehouses = []; connections = if s.has_pool then [] else s.connections }
