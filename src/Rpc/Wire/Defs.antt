-- ===== src/Rpc/Wire/Defs.antt =====
-- `RPCMatrixTask` of gen-cpp/RPCSendMatrixTasks_types.cpp, with its reading and writing.
use distributed_matrix_multi.Prelude.{
  ℕ, zero, suc, ◌%◌, Bool, true, false, List, [], ◌∷◌, ◌++◌, ℤ, pos, ◌==◌, if◌then◌else◌, length,
}
use distributed_matrix_multi.Rpc.Protocol.{
  TType, t_stop, t_i32, t_i64, t_list, Reader, ◌>>=◌, ◌>>◌, pure, throw, TProtocol, Stream,
}

pub record TaskIsset : Type 0 where
  pub result_matrix : Bool
  pub row : Bool
  pub col : Bool
  pub matrix_chunk_a : Bool
  pub matrix_chunk_b : Bool

pub record WireTask : Type 0 where
  pub result_matrix : ℤ
  pub row : ℤ
  pub col : ℤ
  pub matrix_chunk_a : List ℤ
  pub matrix_chunk_b : List ℤ
  pub is_set : TaskIsset

-- The default constructor.
abbrev pub new_task : WireTask
new_task = record {
  result_matrix = pos 0;
  row = pos 0;
  col = pos 0;
  matrix_chunk_a = [];
  matrix_chunk_b = [];
  is_set = record {
    result_matrix = false;
    row = false;
    col = false;
    matrix_chunk_a = false;
    matrix_chunk_b = false;
  };
}

module _ (P : TProtocol) where
  -- The loop of a generated `read` over the fields up to the stop, and what stands around it. `field` is
  -- the `switch` of the struct; `none` also stands for more fields than there are rounds.
  unfoldable pub read_fields :
      {A : Type 0} → (ℕ → TType → A → Reader (P.Symbol) A) → ℕ → A → Reader (P.Symbol) A
  read_fields field zero a = throw
  read_fields field (suc rounds) a = do
    (ftype, fid) ← P.read_field_begin
    elim ftype [
      | t_stop ↦ pure a
      | used ↦ do a' ← field fid used a; P.read_field_end; read_fields field rounds a'
    ]

  unfoldable pub read_struct :
      {A : Type 0} → (ℕ → TType → A → Reader (P.Symbol) A) → ℕ → A → Reader (P.Symbol) A
  read_struct field rounds a = do
    P.read_struct_begin
    a' ← read_fields field rounds a
    P.read_struct_end
    pure a'

  abbrev pub skip_field : {A : Type 0} → TType → A → Reader (P.Symbol) A
  skip_field ftype a = do P.skip ftype; pure a

  -- The elements of a list, and the list; the type of the elements is not looked at.
  unfoldable pub read_i32s : ℕ → Reader (P.Symbol) (List ℤ)
  read_i32s zero = pure []
  read_i32s (suc n) = do v ← P.read_i32; vs ← read_i32s n; pure (v ∷ vs)

  unfoldable pub read_chunk : Reader (P.Symbol) (List ℤ)
  unfolding read_i32s
  read_chunk = do (etype, size) ← P.read_list_begin; vs ← read_i32s size; P.read_list_end; pure vs

  unfoldable pub task_field : ℕ → TType → WireTask → Reader (P.Symbol) WireTask
  unfolding read_chunk
  task_field fid ftype t =
      if fid == 1
      then elim ftype [
        | t_i32 ↦ do
          v ← P.read_i32
          pure (record t { result_matrix = v; is_set = record (t.is_set) { result_matrix = true } })
        | wrong ↦ skip_field wrong t
      ]
      else if fid == 2
      then elim ftype [
        | t_i64 ↦ do
          v ← P.read_i64
          pure (record t { row = v; is_set = record (t.is_set) { row = true } })
        | wrong ↦ skip_field wrong t
      ]
      else if fid == 3
      then elim ftype [
        | t_i64 ↦ do
          v ← P.read_i64
          pure (record t { col = v; is_set = record (t.is_set) { col = true } })
        | wrong ↦ skip_field wrong t
      ]
      else if fid == 4
      then elim ftype [
        | t_list ↦ do
          vs ← read_chunk
          pure (record t {
            matrix_chunk_a = vs;
            is_set = record (t.is_set) { matrix_chunk_a = true };
          })
        | wrong ↦ skip_field wrong t
      ]
      else if fid == 5
      then elim ftype [
        | t_list ↦ do
          vs ← read_chunk
          pure (record t {
            matrix_chunk_b = vs;
            is_set = record (t.is_set) { matrix_chunk_b = true };
          })
        | wrong ↦ skip_field wrong t
      ]
      else skip_field ftype t

  unfoldable pub read_task : ℕ → WireTask → Reader (P.Symbol) WireTask
  read_task rounds t = read_struct task_field rounds t

  unfoldable pub write_i32s : List ℤ → Stream P
  write_i32s [] = []
  write_i32s (v ∷ vs) = P.write_i32 v ++ write_i32s vs

  -- The size is converted to 32 bits.
  unfoldable pub write_chunk : List ℤ → Stream P
  unfolding write_i32s
  write_chunk vs =
      P.write_list_begin t_i32 (length vs % 4294967296) ++ (write_i32s vs ++ P.write_list_end)

  -- One field, with its value.
  unfoldable pub write_field : TType → ℕ → Stream P → Stream P
  write_field ftype fid value = P.write_field_begin ftype fid ++ (value ++ P.write_field_end)

  unfoldable pub write_task : WireTask → Stream P
  write_task t =
      P.write_struct_begin
      ++ (write_field t_i32 1 (P.write_i32 t.result_matrix)
          ++ (write_field t_i64 2 (P.write_i64 t.row)
              ++ (write_field t_i64 3 (P.write_i64 t.col)
                  ++ (write_field t_list 4 (write_chunk t.matrix_chunk_a)
                      ++ (write_field t_list 5 (write_chunk t.matrix_chunk_b)
                          ++ (P.write_field_stop ++ P.write_struct_end))))))
