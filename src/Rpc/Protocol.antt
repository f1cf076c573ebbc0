-- ===== src/Rpc/Protocol.antt =====
-- `TProtocol` of the thrift library, which the code in gen-cpp reads from and writes to. It is not part of
-- the repository: the operations that gen-cpp uses are the fields of a record, and what it relies on is
-- that each read gives what the matching write has written, whatever follows.
use distributed_matrix_multi.Prelude.{
  ℕ, ◌<◌, ◌≡◌, Bool, true, false, ◌&&◌, Option, none, some, List, [], ◌∷◌, ◌++◌, ℤ, fits, i32_bound,
  i64_bound, Bytes, ◌==◌,
}

-- The types of fields; `other` are those that gen-cpp does not use here.
pub data TType : Type 0 where
  t_stop t_bool t_i32 t_i64 t_struct t_list : TType
  other : ℕ → TType

pub data TMessageType : Type 0 where
  t_call t_reply t_exception t_oneway : TMessageType

-- Reads from a stream of symbols; `none` is an exception of the library.
abbrev pub Reader : Type 0 → Type 0 → Type 0
Reader S A = List S → Option (A × List S)

infixl 5 ◌>>=◌ ◌>>◌
abbrev pub ◌>>=◌ : {S A B : Type 0} → Reader S A → (A → Reader S B) → Reader S B
◌>>=◌ m f s = elim (m s) [ none ↦ none | some (a, s') ↦ f a s' ]

abbrev pub ◌>>◌ : {S B : Type 0} → Reader S (Unit {0}) → Reader S B → Reader S B
m >> k = m >>= λ _. k

abbrev pub pure : {S A : Type 0} → A → Reader S A
pure a s = some (a, s)

-- `throw`.
abbrev pub throw : {S A : Type 0} → Reader S A
throw s = none

-- Names of structs and fields are left out, since no read uses them.
pub record TProtocol : Type 1 where
  pub Symbol : Type 0
  pub write_struct_begin : List Symbol
  pub write_struct_end : List Symbol
  pub write_field_begin : TType → ℕ → List Symbol
  pub write_field_end : List Symbol
  pub write_field_stop : List Symbol
  pub write_i32 : ℤ → List Symbol
  pub write_i64 : ℤ → List Symbol
  pub write_bool : Bool → List Symbol
  pub write_list_begin : TType → ℕ → List Symbol
  pub write_list_end : List Symbol
  pub write_message_begin : Bytes → TMessageType → ℕ → List Symbol
  pub write_message_end : List Symbol
  pub write_exception : List Symbol
  pub read_struct_begin : Reader Symbol (Unit {0})
  pub read_struct_end : Reader Symbol (Unit {0})
  pub read_field_begin : Reader Symbol (TType × ℕ)
  pub read_field_end : Reader Symbol (Unit {0})
  pub read_i32 : Reader Symbol ℤ
  pub read_i64 : Reader Symbol ℤ
  pub read_bool : Reader Symbol Bool
  pub read_list_begin : Reader Symbol (TType × ℕ)
  pub read_list_end : Reader Symbol (Unit {0})
  pub read_message_begin : Reader Symbol (Bytes × TMessageType × ℕ)
  pub read_message_end : Reader Symbol (Unit {0})
  pub read_exception : Reader Symbol (Unit {0})
  pub skip : TType → Reader Symbol (Unit {0})

abbrev pub Stream : TProtocol → Type 0
Stream P = List (P.Symbol)

-- What is written is read back. Sizes of lists have 32 bits.
pub record IsFaithful (P : TProtocol) : Type 0 where
  pub struct_begin : (s : Stream P) → P.read_struct_begin (P.write_struct_begin ++ s) ≡ some (tt, s)
  pub struct_end : (s : Stream P) → P.read_struct_end (P.write_struct_end ++ s) ≡ some (tt, s)
  pub field_begin :
      (t : TType) (id : ℕ) (s : Stream P)
      → P.read_field_begin (P.write_field_begin t id ++ s) ≡ some ((t, id), s)
  pub field_end : (s : Stream P) → P.read_field_end (P.write_field_end ++ s) ≡ some (tt, s)
  pub field_stop :
      (s : Stream P) → P.read_field_begin (P.write_field_stop ++ s) ≡ some ((t_stop, 0), s)
  pub i32 :
      (v : ℤ) (s : Stream P)
      → fits i32_bound v ≡ true
      → P.read_i32 (P.write_i32 v ++ s) ≡ some (v, s)
  pub i64 :
      (v : ℤ) (s : Stream P)
      → fits i64_bound v ≡ true
      → P.read_i64 (P.write_i64 v ++ s) ≡ some (v, s)
  pub bool : (b : Bool) (s : Stream P) → P.read_bool (P.write_bool b ++ s) ≡ some (b, s)
  pub list_begin :
      (t : TType) (n : ℕ) (s : Stream P)
      → n < 4294967296
      → P.read_list_begin (P.write_list_begin t n ++ s) ≡ some ((t, n), s)
  pub list_end : (s : Stream P) → P.read_list_end (P.write_list_end ++ s) ≡ some (tt, s)
  pub message_begin :
      (name : Bytes) (t : TMessageType) (seqid : ℕ) (s : Stream P)
      → P.read_message_begin (P.write_message_begin name t seqid ++ s) ≡ some ((name, t, seqid), s)
  pub message_end : (s : Stream P) → P.read_message_end (P.write_message_end ++ s) ≡ some (tt, s)
  pub exception : (s : Stream P) → P.read_exception (P.write_exception ++ s) ≡ some (tt, s)

-- `fname.compare(name) == 0`.
abbrev pub same_name : Bytes → Bytes → Bool
same_name [] [] = true
same_name (c ∷ cs) (d ∷ ds) = (c == d) && same_name cs ds
same_name _ _ = false
