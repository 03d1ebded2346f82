-- ===== src/Statements/Chunks/Whole.antt =====
-- The chunks put together are the rows.
use minilake.Prelude.{
  ℕ, zero, suc, ◌+◌, ◌≤◌, String, ◌≡◌, refl, sym, ap, ◌∙◌, inl, inr, false, Option, none, some,
  List, [], ◌∷◌, ◌++◌, ◌==◌, string_eq, arith, leb, length, Bool-cases, subst,
}
use minilake.Prelude.Int.{pos}
use minilake.Prelude.Dict.{get}
use minilake.Errors.{Result, ok, raised}
use minilake.Paging.{drop}
use minilake.Paging.Parts.{take-drop, drop-drop, drop_all}
use minilake.Statements.Model.{ChunkInfo, ResultData, Statement, State, Wire}
use minilake.Statements.Chunks.{
  chunk_size, nth, chunks_from, or_one_empty, chunks_of, chunk_infos, manifest_of, build_manifest,
  get_result_chunk, chunk_result,
}

abbrev pub concat {ℓ} : {A : Type ℓ} → List (List A) → List A
concat [] = []
concat (xs ∷ xss) = xs ++ concat xss

module _ {ℓ} {A : Type ℓ} (k : ℕ) (rows : List A) where
  concat-chunks_from :
      (fuel start : ℕ)
      → length rows ≤ start + fuel
      → concat (chunks_from (suc k) fuel start rows) ≡ drop start rows
  unfolding chunks_from
  concat-chunks_from zero start h = sym (drop_all start rows (omega arith))
  concat-chunks_from (suc fuel) start h = elim (Bool-cases (leb (length rows) start)) [
    | inl past ↦ rw past (sym (drop_all start rows (ground (arith, past))))
    | inr more ↦
        rw
          (
            more,
            concat-chunks_from fuel (start + suc k) (omega arith),
            sym (drop-drop start (suc k) rows),
          )
          (take-drop (suc k) (drop start rows))
  ]

  concat-or_one_empty : (cs : List (List A)) → concat (or_one_empty cs) ≡ concat cs
  concat-or_one_empty [] = refl
  concat-or_one_empty (c ∷ cs) = refl

  concat-chunks_of : concat (chunks_of (suc k) rows) ≡ rows
  unfolding chunks_of
  concat-chunks_of =
      concat-or_one_empty (chunks_from (suc k) (length rows) 0 rows)
      ∙ concat-chunks_from (length rows) 0 (omega arith)

module _ {Row Bytes : Type 0} (wire : Wire Row Bytes) (base : String) (s : State Row)
    (id : String) where
  -- A client that reads the chunks of a manifest one after the other: none if one is refused or has
  -- no rows in it.
  abbrev append : Result (ResultData Row) → Option (List Row) → Option (List Row)
  append (raised x) later = none
  append (ok answer) later = both answer.data_array later
    where
      both : Option (List Row) → Option (List Row) → Option (List Row)
      both (some rows) (some rest) = some (rows ++ rest)
      both _ _ = none

  abbrev pub read_chunks : List ChunkInfo → Option (List Row)
  read_chunks [] = some []
  read_chunks (info ∷ infos) =
      append (get_result_chunk wire base s id (pos info.chunk_index)) (read_chunks infos)

  module _ (stmt : Statement Row) (stored : get s id ≡ some stmt)
      (inline : (stmt.disposition == "EXTERNAL_LINKS") ≡ false) where
    get_inline :
        (i : ℕ) (rows : List Row)
        → nth (chunks_of chunk_size stmt.raw_rows) i ≡ some rows
        → (answer : ResultData Row) × (get_result_chunk wire base s id (pos i) ≡ ok answer)
          × (answer.data_array ≡ some rows)
    unfolding get_result_chunk chunk_result
    get_inline i rows at = (
      chunk_result wire base id stmt i rows,
      rw (stored, get_result_chunk) (rw (at, get_result_chunk) refl),
      rw inline refl,
    )

    -- The chunks from the i-th on, read by their descriptions.
    read_from :
        (i : ℕ) (cs : List (List Row))
        → ((j : ℕ) (rows : List Row)
            → nth cs j ≡ some rows
            → nth (chunks_of chunk_size stmt.raw_rows) (i + j) ≡ some rows)
        → read_chunks (chunk_infos chunk_size i cs) ≡ some (concat cs)
    unfolding chunk_infos
    read_from i [] at = refl
    read_from i (c ∷ cs) at =
        let here =
          subst (λ k. nth (chunks_of chunk_size stmt.raw_rows) k ≡ some c) (plus_zero i)
            (at 0 c refl) in
        let later = read_from (suc i) cs (λ j rows h.
          subst (λ k. nth (chunks_of chunk_size stmt.raw_rows) k ≡ some rows) (plus_suc i j)
            (at (suc j) rows h)) in
        let (answer, got, holds) = get_inline i c here in rw (got, holds, later) refl
      where
        plus_zero : (i : ℕ) → i + 0 ≡ i
        plus_zero i = omega arith

        plus_suc : (i j : ℕ) → i + suc j ≡ suc i + j
        plus_suc i j = omega arith

-- A client that reads each chunk that the manifest of a stored statement describes, in order, has
-- all its rows, each once and in order; the statement's disposition is not EXTERNAL_LINKS.
pub read_chunks-build_manifest :
    {Row Bytes : Type 0} (wire : Wire Row Bytes) (base : String) (s : State Row) (id : String)
    (stmt : Statement Row)
    → get s id ≡ some stmt
    → (stmt.disposition == "EXTERNAL_LINKS") ≡ false
    → read_chunks wire base s id
        (build_manifest stmt.raw_columns stmt.raw_rows stmt.format stmt.raw_column_types).chunks
      ≡ some stmt.raw_rows
unfolding build_manifest manifest_of
read_chunks-build_manifest wire base s id stmt stored inline =
    read_from wire base s id stmt stored inline 0 (chunks_of chunk_size stmt.raw_rows) (λ j rows h.
      subst (λ k. nth (chunks_of chunk_size stmt.raw_rows) k ≡ some rows) (zero_plus j) h)
    ∙ ap some (concat-chunks_of 99999 stmt.raw_rows)
  where
    zero_plus : (j : ℕ) → j ≡ 0 + j
    zero_plus j = omega arith
