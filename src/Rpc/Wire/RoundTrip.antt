-- ===== src/Rpc/Wire/RoundTrip.antt =====
-- What gen-cpp/RPCSendMatrixTasks_types.cpp writes of a task, it reads back.
use distributed_matrix_multi.Prelude.{
  ℕ, suc, ◌-◌, ◌%◌, ◌<◌, ◌≡◌, refl, sym, ◌∙◌, subst, Bool, true, false, some, List, [], ◌∷◌, ◌++◌,
  append_assoc, arith, ℤ, fits, i32_bound, i64_bound, length, All,
}
use distributed_matrix_multi.Rpc.Protocol.{
  TType, t_stop, t_i32, t_i64, t_list, Reader, ◌>>=◌, TProtocol, Stream, IsFaithful,
}
use distributed_matrix_multi.Rpc.Wire.Defs.{
  WireTask, read_fields, read_struct, read_i32s, read_chunk, task_field, read_task, write_i32s,
  write_chunk, write_field, write_task,
}

-- What a chunk has to be like to fit on the wire.
abbrev pub FitsWire : List ℤ → Type 0
FitsWire vs = All (λ v. fits i32_bound v ≡ true) vs × (length vs < 4294967296)

module _ {P : TProtocol} (L : IsFaithful P) where
  read_i32s-write_i32s :
      (vs : List ℤ) (s : Stream P)
      → All (λ v. fits i32_bound v ≡ true) vs
      → read_i32s P (length vs) (write_i32s P vs ++ s) ≡ some (vs, s)
  unfolding read_i32s write_i32s
  read_i32s-write_i32s [] s h = refl
  read_i32s-write_i32s (v ∷ vs) s h =
      rw append_assoc
        (rw (L.i32 v (write_i32s P vs ++ s) h.0, read_i32s-write_i32s vs s h.1, ◌>>=◌) refl)

  read_chunk-write_chunk :
      (vs : List ℤ) (s : Stream P)
      → FitsWire vs
      → read_chunk P (write_chunk P vs ++ s) ≡ some (vs, s)
  unfolding read_chunk write_chunk
  read_chunk-write_chunk vs s h =
      let size : length vs % 4294967296 ≡ length vs = omega (arith, h.1) in
      rw (size, append_assoc, append_assoc)
        (ground (
          arith,
          L.list_begin t_i32 (length vs) (write_i32s P vs ++ (P.write_list_end ++ s)) h.1,
          read_i32s-write_i32s vs (P.write_list_end ++ s) h.0,
          L.list_end s,
        ))

abbrev pub not_stop : TType → Bool
not_stop t_stop = false
not_stop _ = true

module _ {P : TProtocol} (L : IsFaithful P) {A : Type 0}
    (field : ℕ → TType → A → Reader (P.Symbol) A) where
  pub read_fields-field :
      (t : TType) (id rounds : ℕ) (a a' : A) (value s : Stream P)
      → not_stop t ≡ true
      → field id t a (value ++ (P.write_field_end ++ s)) ≡ some (a', P.write_field_end ++ s)
      → read_fields P field (suc rounds) a (write_field P t id value ++ s)
        ≡ read_fields P field rounds a' s
  unfolding read_fields write_field
  read_fields-field t id rounds a a' value s n e =
      rw (append_assoc, append_assoc)
        (ground (arith, L.field_begin t id (value ++ (P.write_field_end ++ s)), L.field_end s))

  pub read_fields-stop :
      (rounds : ℕ) (a : A) (s : Stream P)
      → read_fields P field (suc rounds) a (P.write_field_stop ++ s) ≡ some (a, s)
  unfolding read_fields
  read_fields-stop rounds a s = ground (arith, L.field_stop s)

  pub read_struct-fields :
      (rounds : ℕ) (a a' : A) (fields s : Stream P)
      → read_fields P field rounds a fields ≡ some (a', P.write_struct_end ++ s)
      → read_struct P field rounds a (P.write_struct_begin ++ fields) ≡ some (a', s)
  unfolding read_struct
  read_struct-fields rounds a a' fields s e = ground (arith, L.struct_begin fields, L.struct_end s)

-- What a task has to be like to fit on the wire.
pub record IsTransportable (t : WireTask) : Type 0 where
  pub result_matrix : fits i32_bound t.result_matrix ≡ true
  pub row : fits i64_bound t.row ≡ true
  pub col : fits i64_bound t.col ≡ true
  pub chunk_a : FitsWire t.matrix_chunk_a
  pub chunk_b : FitsWire t.matrix_chunk_b

-- The task with all its fields marked as read.
abbrev pub all_set : WireTask → WireTask
all_set t = record t {
  is_set = record {
    result_matrix = true;
    row = true;
    col = true;
    matrix_chunk_a = true;
    matrix_chunk_b = true;
  };
}

module _ {P : TProtocol} (L : IsFaithful P) (t old : WireTask) (h : IsTransportable t)
    (s : Stream P) where
  abbrev set_1 : WireTask
  set_1 = record old {
    result_matrix = t.result_matrix;
    is_set = record (old.is_set) { result_matrix = true };
  }

  abbrev set_2 : WireTask
  set_2 = record set_1 { row = t.row; is_set = record (set_1.is_set) { row = true } }

  abbrev set_3 : WireTask
  set_3 = record set_2 { col = t.col; is_set = record (set_2.is_set) { col = true } }

  abbrev set_4 : WireTask
  set_4 = record set_3 {
    matrix_chunk_a = t.matrix_chunk_a;
    is_set = record (set_3.is_set) { matrix_chunk_a = true };
  }

  task_field_1 :
      (r : Stream P) → task_field P 1 t_i32 old (P.write_i32 t.result_matrix ++ r) ≡ some (set_1, r)
  unfolding task_field
  task_field_1 r = ground (arith, L.i32 t.result_matrix r h.result_matrix)

  task_field_2 :
      (r : Stream P) → task_field P 2 t_i64 set_1 (P.write_i64 t.row ++ r) ≡ some (set_2, r)
  unfolding task_field
  task_field_2 r = ground (arith, L.i64 t.row r h.row)

  task_field_3 :
      (r : Stream P) → task_field P 3 t_i64 set_2 (P.write_i64 t.col ++ r) ≡ some (set_3, r)
  unfolding task_field
  task_field_3 r = ground (arith, L.i64 t.col r h.col)

  task_field_4 :
      (r : Stream P)
      → task_field P 4 t_list set_3 (write_chunk P t.matrix_chunk_a ++ r) ≡ some (set_4, r)
  unfolding task_field
  task_field_4 r = ground (arith, read_chunk-write_chunk L t.matrix_chunk_a r h.chunk_a)

  task_field_5 :
      (r : Stream P)
      → task_field P 5 t_list set_4 (write_chunk P t.matrix_chunk_b ++ r) ≡ some (all_set t, r)
  unfolding task_field
  task_field_5 r = ground (arith, read_chunk-write_chunk L t.matrix_chunk_b r h.chunk_b)

  abbrev field_stream : Stream P
  field_stream =
      write_field P t_i32 1 (P.write_i32 t.result_matrix)
      ++ (write_field P t_i64 2 (P.write_i64 t.row)
          ++ (write_field P t_i64 3 (P.write_i64 t.col)
              ++ (write_field P t_list 4 (write_chunk P t.matrix_chunk_a)
                  ++ (write_field P t_list 5 (write_chunk P t.matrix_chunk_b)
                      ++ (P.write_field_stop ++ (P.write_struct_end ++ s))))))

  task-fields :
      (rounds : ℕ)
      → read_fields P (task_field P) (suc (suc (suc (suc (suc (suc rounds)))))) old field_stream
        ≡ some (all_set t, P.write_struct_end ++ s)
  task-fields rounds =
      read_fields-field L (task_field P) t_i32 1 (suc (suc (suc (suc (suc rounds))))) old set_1
        (P.write_i32 t.result_matrix) _ refl (task_field_1 _)
      ∙ (read_fields-field L (task_field P) t_i64 2 (suc (suc (suc (suc rounds)))) set_1 set_2
            (P.write_i64 t.row) _ refl (task_field_2 _)
          ∙ (read_fields-field L (task_field P) t_i64 3 (suc (suc (suc rounds))) set_2 set_3
                (P.write_i64 t.col) _ refl (task_field_3 _)
              ∙ (read_fields-field L (task_field P) t_list 4 (suc (suc rounds)) set_3 set_4
                    (write_chunk P t.matrix_chunk_a) _ refl (task_field_4 _)
                  ∙ (read_fields-field L (task_field P) t_list 5 (suc rounds) set_4 (all_set t)
                        (write_chunk P t.matrix_chunk_b) _ refl (task_field_5 _)
                      ∙ read_fields-stop L (task_field P) rounds (all_set t)
                          (P.write_struct_end ++ s)))))

  pub read_task-write_task :
      (rounds : ℕ) → 5 < rounds → read_task P rounds old (write_task P t ++ s) ≡ some (all_set t, s)
  unfolding read_task write_task
  read_task-write_task rounds enough =
      let six : rounds ≡ suc (suc (suc (suc (suc (suc (rounds - 6)))))) = omega arith in
      simp append_assoc (
        read_struct-fields L (task_field P) rounds old (all_set t) field_stream s (
          subst
            (λ n.
              read_fields P (task_field P) n old field_stream
              ≡ some (all_set t, P.write_struct_end ++ s))
            (sym six) (task-fields (rounds - 6))))
