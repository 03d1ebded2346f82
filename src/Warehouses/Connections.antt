-- ===== src/Warehouses/Connections.antt =====
-- The warehouses and the connections of the DuckDB pool.
use minilake.Prelude.{
  ℕ, String, ◌≡◌, Option, none, some, ◌⊎◌, sym, inl, inr, true, false, List, [], ◌∷◌, arith,
  string_eq, Option-cases, Bool-cases,
}
use minilake.Prelude.Dict.{get, has, get-put_text, get-remove_text, get-nil}
use minilake.Errors.{Exception}
use minilake.Warehouses.{
  get_warehouse_connection, State, Request, Warehouse, WarehouseState, running, stopped, set_state,
  new_warehouse, get_warehouse, create_warehouse, start_warehouse, stop_warehouse, delete_warehouse,
  reset,
}

-- Where there is a pool, it has a connection for exactly the known warehouses, but for those that are
-- excused, which may be without one.
pub record IsConnected (Excused : String → Type 0) (s : State) : Type 0 where
  pub connected :
      (id : String)
      → s.has_pool ≡ true
      → (has s.connections id ≡ has s.warehouses id) ⊎ (Excused id × (has s.connections id ≡ false))

pub data Event : Type 0 where
  create : (failure : Option Exception) (id : String) (now : ℕ) (req : Request) → Event
  start : String → Event
  stop : String → Event
  delete : String → Event
  reset_all : Event

unfoldable pub step : Event → State → State
step (create failure id now req) s = (create_warehouse failure id now req s).1
step (start id) s = (start_warehouse id s).1
step (stop id) s = (stop_warehouse id s).1
step (delete id) s = (delete_warehouse id s).1
step reset_all s = reset s

unfoldable pub run : List Event → State → State
unfolding step
run [] s = s
run (e ∷ es) s = run es (step e s)

-- The event creates this warehouse and fails to connect.
abbrev pub FailsAt : String → Event → Type 0
FailsAt id (create (some x) j now req) = j ≡ id
FailsAt id _ = ⊥

abbrev pub Fails : String → List Event → Type 0
Fails id [] = ⊥
Fails id (e ∷ es) = FailsAt id e ⊎ Fails id es

abbrev After : (String → Type 0) → Event → String → Type 0
After Excused e id = Excused id ⊎ FailsAt id e

module _ (Excused : String → Type 0) (s : State) (ok : IsConnected Excused s) where
  create-IsConnected :
      (failure : Option Exception) (id : String) (now : ℕ) (req : Request)
      → IsConnected
          (After Excused (create failure id now req))
          (create_warehouse failure id now req s).1
  unfolding create_warehouse get_warehouse_connection
  create-IsConnected none id now req = record {
    connected = λ j pool. elim (string_eq.dec j id) [
      | yes here ↦ inl (
          ground (
            arith,
            pool,
            here,
            get-put_text s.warehouses id (new_warehouse id now req) j,
            get-put_text s.connections id tt j,
          ))
      | no there ↦ elim (ok.connected j (ground (arith, pool))) [
        | inl same ↦ inl (
            ground (
              arith,
              pool,
              there,
              same,
              get-put_text s.warehouses id (new_warehouse id now req) j,
              get-put_text s.connections id tt j,
            ))
        | inr (l, lost) ↦
            inr (inl l, ground (arith, pool, there, lost, get-put_text s.connections id tt j))
      ]
    ];
  }
  create-IsConnected (some x) id now req = record {
    connected = λ j pool. elim (string_eq.dec j id) [
      | yes here ↦ elim (Bool-cases (has s.connections id)) [
        | inl held ↦ inl (
            ground
              (arith, pool, here, held, get-put_text s.warehouses id (new_warehouse id now req) j))
        | inr lost ↦ inr (inr (sym here), ground (arith, pool, here, lost))
      ]
      | no there ↦ elim (ok.connected j (ground (arith, pool))) [
        | inl same ↦ inl (
            ground
              (arith, pool, there, same, get-put_text s.warehouses id (new_warehouse id now req) j))
        | inr (l, lost) ↦ inr (inl l, ground (arith, pool, there, lost))
      ]
    ];
  }

  set_state-IsConnected :
      (target : WarehouseState) (id : String) → IsConnected Excused (set_state target id s).1
  unfolding set_state get_warehouse
  set_state-IsConnected target id = record {
    connected = λ j pool. elim (Option-cases (get s.warehouses id)) [
      | inl e ↦ elim (ok.connected j (ground (arith, e, pool))) [
        | inl same ↦ inl (ground (arith, e, same))
        | inr (l, lost) ↦ inr (l, ground (arith, e, lost))
      ]
      | inr (w, e) ↦ elim (ok.connected j (ground (arith, e, pool))) [
        | inl same ↦
            inl (
              ground (arith, e, same, get-put_text s.warehouses id (record w { state = target }) j))
        | inr (l, lost) ↦ inr (l, ground (arith, e, lost))
      ]
    ];
  }

  delete-IsConnected : (id : String) → IsConnected Excused (delete_warehouse id s).1
  unfolding delete_warehouse get_warehouse
  delete-IsConnected id = record {
    connected = λ j pool. elim (Option-cases (get s.warehouses id)) [
      | inl e ↦ elim (ok.connected j (ground (arith, e, pool))) [
        | inl same ↦ inl (ground (arith, e, same))
        | inr (l, lost) ↦ inr (l, ground (arith, e, lost))
      ]
      | inr (w, e) ↦ elim (ok.connected j (ground (arith, e, pool))) [
        | inl same ↦ inl (
            ground (
              arith,
              e,
              pool,
              same,
              get-remove_text s.warehouses id j,
              get-remove_text s.connections id j,
            ))
        | inr (l, lost) ↦ inr (l, ground (arith, e, pool, lost, get-remove_text s.connections id j))
      ]
    ];
  }

  reset-IsConnected : IsConnected Excused (reset s)
  unfolding reset
  reset-IsConnected = record {
    connected = λ j pool. inl (
        ground (
          arith,
          pool,
          get-nil {K = String} {V = Warehouse} j,
          get-nil {K = String} {V = Unit {0}} j,
        ));
  }

excused_more :
    (P Q : String → Type 0) (s : State)
    → ((id : String) → P id → Q id)
    → IsConnected P s
    → IsConnected Q s
excused_more P Q s more ok = record {
  connected = λ id pool. elim (ok.connected id pool) [
    | inl same ↦ inl same
    | inr (p, lost) ↦ inr (more id p, lost)
  ];
}

step-IsConnected :
    (Excused : String → Type 0) (e : Event) (s : State)
    → IsConnected Excused s
    → IsConnected (After Excused e) (step e s)
unfolding step start_warehouse stop_warehouse
step-IsConnected Excused (create failure id now req) s ok =
    create-IsConnected Excused s ok failure id now req
step-IsConnected Excused (start id) s ok =
    excused_more Excused _ _ (λ j l. inl l) (set_state-IsConnected Excused s ok running id)
step-IsConnected Excused (stop id) s ok =
    excused_more Excused _ _ (λ j l. inl l) (set_state-IsConnected Excused s ok stopped id)
step-IsConnected Excused (delete id) s ok =
    excused_more Excused _ _ (λ j l. inl l) (delete-IsConnected Excused s ok id)
step-IsConnected Excused reset_all s ok =
    excused_more Excused _ _ (λ j l. inl l) (reset-IsConnected Excused s ok)

-- After any warehouse requests, one after the other and each with any answer, from a state in which a
-- pool that is there has a connection for exactly the known warehouses but for excused ones: it still
-- has one for exactly the known warehouses, but for those that were excused and those whose creation
-- failed to connect, which may be known without one.
pub run-IsConnected :
    (Excused : String → Type 0) (es : List Event) (s : State)
    → IsConnected Excused s
    → IsConnected (λ id. Excused id ⊎ Fails id es) (run es s)
unfolding run
run-IsConnected Excused [] s ok = excused_more Excused _ s (λ id l. inl l) ok
run-IsConnected Excused (e ∷ es) s ok =
    excused_more _ _ (run es (step e s))
      (λ id l. elim l [
        | inl (inl old) ↦ inl old
        | inl (inr now) ↦ inr (inl now)
        | inr later ↦ inr (inr later)
      ])
      (run-IsConnected (After Excused e) es (step e s) (step-IsConnected Excused e s ok))
