-- ===== src/Rpc/Calls/Structs.antt =====
-- The arguments and results of gen-cpp/RPCSendMatrixTasks.cpp are read as they were written.
use distributed_matrix_multi.Prelude.{
  ℕ, suc, ◌-◌, ◌<◌, ◌≡◌, refl, ◌∙◌, Bool, true, false, some, ◌++◌, append_assoc, arith,
}
use distributed_matrix_multi.Rpc.Protocol.{
  TType, t_bool, t_struct, Reader, TProtocol, Stream, IsFaithful,
}
use distributed_matrix_multi.Rpc.Wire.Defs.{
  WireTask, new_task, read_struct, write_task, write_field,
}
use distributed_matrix_multi.Rpc.Wire.RoundTrip.{
  read_fields-field, read_fields-stop, read_struct-fields, IsTransportable, all_set,
  read_task-write_task, not_stop,
}
use distributed_matrix_multi.Rpc.Calls.Parts.{
  new_bool_result, success_field, no_field, write_success, write_empty,
}
use distributed_matrix_multi.Rpc.Calls.Client.{write_calc_task_args, write_send_task_result_args}
use distributed_matrix_multi.Rpc.Calls.Server.{
  calc_task_field, read_calc_task_args, send_task_result_field, read_send_task_result_args,
}

module _ {P : TProtocol} (L : IsFaithful P) where
  -- A struct with one field.
  one_field :
      {A : Type 0} (field : ℕ → TType → A → Reader (P.Symbol) A) (t : TType) (id rounds : ℕ)
      (a a' : A) (value s : Stream P)
      → 1 < rounds
      → not_stop t ≡ true
      → ((r : Stream P) → field id t a (value ++ r) ≡ some (a', r))
      → read_struct P field rounds a (
          P.write_struct_begin
          ++ (write_field P t id value ++ (P.write_field_stop ++ (P.write_struct_end ++ s))))
        ≡ some (a', s)
  one_field field t id rounds a a' value s enough n e =
      let two : rounds ≡ suc (suc (rounds - 2)) = omega arith in
      let end = P.write_field_stop ++ (P.write_struct_end ++ s) in
      read_struct-fields L field rounds a a' (write_field P t id value ++ end) s (
        rw two (
          read_fields-field L field t id (suc (rounds - 2)) a a' value end n
            (e (P.write_field_end ++ end))
          ∙ read_fields-stop L field (rounds - 2) a' (P.write_struct_end ++ s)))

  pub read-write_success :
      (b : Bool) (rounds : ℕ) (s : Stream P)
      → 1 < rounds
      → read_struct P
          (success_field P)
          rounds
          new_bool_result
          (write_success P (record { success = b; is_set = true }) ++ s)
        ≡ some (record { success = b; is_set = true }, s)
  unfolding write_success
  read-write_success b rounds s enough = simp append_assoc (
      one_field (success_field P) t_bool 0 rounds new_bool_result
        (record { success = b; is_set = true }) (P.write_bool b) s enough refl
        (λ r. unfold success_field in ground (arith, L.bool b r)))

  pub read-write_empty :
      (rounds : ℕ) (s : Stream P)
      → 0 < rounds
      → read_struct P (no_field P) rounds tt (write_empty P ++ s) ≡ some (tt, s)
  unfolding write_empty
  read-write_empty rounds s enough =
      let one : rounds ≡ suc (rounds - 1) = omega arith in
      simp append_assoc (
        read_struct-fields L (no_field P) rounds tt tt
          (P.write_field_stop ++ (P.write_struct_end ++ s)) s
          (rw one (read_fields-stop L (no_field P) (rounds - 1) tt (P.write_struct_end ++ s))))

  pub read-write_calc_task_args :
      (t : WireTask) (rounds : ℕ) (s : Stream P)
      → IsTransportable t
      → 5 < rounds
      → read_calc_task_args P rounds (write_calc_task_args P t ++ s)
        ≡ some (record { rpc_matrix_task = all_set t; is_set = true }, s)
  unfolding read_calc_task_args write_calc_task_args
  read-write_calc_task_args t rounds s h enough = simp append_assoc (
      one_field (calc_task_field P rounds) t_struct 1 rounds
        (record { rpc_matrix_task = new_task; is_set = false })
        (record { rpc_matrix_task = all_set t; is_set = true }) (write_task P t) s (omega arith)
        refl
        (λ r.
          unfold calc_task_field in
          ground (arith, read_task-write_task L t new_task h r rounds enough)))

  pub read-write_send_task_result_args :
      (b : Bool) (rounds : ℕ) (s : Stream P)
      → 1 < rounds
      → read_send_task_result_args P rounds (write_send_task_result_args P b ++ s)
        ≡ some (record { last_chunk = b; is_set = true }, s)
  unfolding read_send_task_result_args write_send_task_result_args
  read-write_send_task_result_args b rounds s enough = simp append_assoc (
      one_field (send_task_result_field P) t_bool 1 rounds
        (record { last_chunk = false; is_set = false }) (record { last_chunk = b; is_set = true })
        (P.write_bool b) s enough refl
        (λ r. unfold send_task_result_field in ground (arith, L.bool b r)))
