-- ===== src/UnityCatalog/State.antt =====
-- The state of services/unity_catalog.py, and what it calls outside the registry: DuckDB through the
-- pool of duckdb_pool.py, and the directory of the volumes. The connection is open from the start, so
-- that no handler suspends while it holds the pool's lock, and each is one step.
use minilake.Prelude.{ℕ, String, Bool, Option, none, some, List, if◌then◌else◌}
use minilake.Prelude.Int.{ℤ}
use minilake.Prelude.Dict.{Dict}
use minilake.Errors.{Exec, Exception, Result, ok, raised, os_error}
use minilake.Names.{Fields}
use minilake.ColumnTypes.Specs.{SparkType}
use minilake.Grants

pub record Catalog : Type 0 where
  pub name : String
  pub comment : Option String
  pub properties : Dict String String
  pub owner : String
  pub created_at : ℕ
  pub updated_at : ℕ

pub record Schema : Type 0 where
  pub name : String
  pub catalog_name : String
  pub full_name : String
  pub comment : Option String
  pub properties : Dict String String
  pub owner : String
  pub created_at : ℕ
  pub updated_at : ℕ

pub record Column : Type 0 where
  pub name : String
  pub type_text : String
  pub type_name : String
  pub type_precision : Option ℤ
  pub type_scale : Option ℤ
  pub type_json : SparkType
  pub position : ℕ
  pub nullable : Bool
  pub comment : Option String

pub record Table : Type 0 where
  pub name : String
  pub catalog_name : String
  pub schema_name : String
  pub full_name : String
  pub table_id : String
  pub table_type : String
  pub data_source_format : Option String
  pub storage_location : Option String
  pub comment : Option String
  pub columns : List Column
  pub properties : Dict String String
  pub owner : String
  pub created_at : ℕ
  pub updated_at : ℕ

pub record ExternalTable : Type 0 where
  pub name : String
  pub catalog_name : String
  pub schema_name : String
  pub storage_location : String
  pub created_at : ℕ

pub record Volume : Type 0 where
  pub name : String
  pub catalog_name : String
  pub schema_name : String
  pub full_name : String
  pub volume_type : String
  pub comment : Option String
  pub properties : Dict String String
  pub owner : String
  pub created_at : ℕ
  pub updated_at : ℕ

-- `_state`, and the state of grants.py, which the deletions write too.
pub record Registry : Type 0 where
  pub catalogs : Dict String Catalog
  pub schemas : Dict String Schema
  pub tables : Dict String Table
  pub volumes : Dict String Volume
  pub functions : Dict String Fields
  pub external_tables : Dict String ExternalTable
  pub grants : Grants.State

-- An action outside that is done, or fails with the text of its exception.
pub data Tried {ℓ} (A : Type ℓ) : Type ℓ where
  done : A → Tried A
  failed : String → Tried A

abbrev pub uncaught : Tried (Unit {0}) → Result (Unit {0})
uncaught (done _) = ok tt
uncaught (failed text) = raised (os_error text)

abbrev pub Action {ℓ} : Type 0 → Type ℓ → Type ℓ
Action W A = W → Tried A × W

pub record World (W : Type 0) : Type 0 where
  -- whether there is a pool
  pub has_pool : W → Bool
  -- `conn.execute` of a statement that changes a database
  pub execute : String → Action W (Unit {0})
  -- the path that a database is attached to, and whether it is the backing file
  pub attachment : String → Action W (Option (String × Bool))
  -- the queries on DuckDB's own tables
  pub catalog_has_children : String → Action W Bool
  pub schema_has_children : (catalog : String) (schema : String) → Action W Bool
  pub table_exists : (catalog : String) (schema : String) (table : String) → Action W Bool
  -- the path of a catalog's file, that path resolved, and the file's removal with its log
  pub backing_file : String → String
  pub resolved_file : String → String
  pub unlink_file : String → Action W (Unit {0})
  -- `iterdir` below the directory of the volumes, with `is_dir`
  pub entries : List String → W → List (String × Bool)
  pub exists : List String → W → Bool
  pub make_dir : List String → Action W (Unit {0})
  pub remove_tree : List String → Action W (Unit {0})
  -- `ensure_writable_dir`
  pub make_writable : String → Action W (Unit {0})

pub record State (W : Type 0) : Type 0 where
  pub registry : Registry
  pub world : W

module _ {W : Type 0} where
  -- `if not …: raise`, on the registry.
  unfoldable pub requiring {ℓ} :
      {A : Type ℓ} → (Registry → Bool) → Exception → Exec (State W) A → Exec (State W) A
  requiring c x m s = if c s.registry then m s else (raised x, s)

  -- What is registered under a key.
  unfoldable pub look_up {ℓ} : {A : Type ℓ} → (Registry → Option A) → Exception → Exec (State W) A
  look_up f x s = (elim (f s.registry) [ none ↦ raised x | some a ↦ ok a ], s)

  -- An action with its outcome: nothing is raised yet.
  unfoldable pub trying {ℓ} : {A : Type ℓ} → Action W A → Exec (State W) (Tried A)
  trying action s = let (outcome, w) = action s.world in (ok outcome, record s { world = w })

  -- An action outside whose failure nothing catches.
  unfoldable pub outside : Action W (Unit {0}) → Exec (State W) (Unit {0})
  outside action s = (uncaught (action s.world).0, record s { world = (action s.world).1 })

  unfoldable pub registered : Exec (State W) Registry
  registered s = (ok s.registry, s)

  unfoldable pub register : (Registry → Registry) → Exec (State W) (Unit {0})
  register f s = (ok tt, record s { registry = f s.registry })

  -- `except Exception as e: raise …`
  unfoldable pub or_error {ℓ} : {A : Type ℓ} → Tried A → (String → Exception) → Exec (State W) A
  or_error (done a) x s = (ok a, s)
  or_error (failed text) x s = (raised (x text), s)

  -- One action after another, the first failure ending both.
  infixl 5 ◌then◌
  unfoldable pub ◌then◌ {ℓ κ} :
      {A : Type ℓ} {B : Type κ} → Action W A → (A → Action W B) → Action W B
  ◌then◌ action f w =
      let (outcome, w') = action w in
      elim outcome [ done a ↦ f a w' | failed text ↦ (failed text, w') ]

module _ {W : Type 0} (world : World W) where
  -- What is done with a pool, and without one.
  unfoldable pub with_pool {ℓ} :
      {A : Type ℓ} → Exec (State W) A → Exec (State W) A → Exec (State W) A
  with_pool m n s = if world.has_pool s.world then m s else n s
