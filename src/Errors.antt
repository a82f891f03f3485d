-- ===== src/Errors.antt =====
-- What a failing function reports (include/min_corehdr/error.h): one constructor for each message
-- that the modelled functions pass to `mch_error_set`, with the numbers and texts that the message
-- shows. The file, detail and hint lines are left out. A failure carries no state: `main` frees
-- every structure once a call has failed.
pub mod Yields
use min_corehdr.Prelude.{ℕ, Bool, true, false, Text, ◌≡◌, refl, ◌⊎◌, inl, inr}

pub data Failure : Type 0 where
  -- src/cli.c
  objects_no_memory missing_btf missing_object output_is_btf output_is_object : Failure
  missing_value unknown_option : Text → Failure
  duplicate_btf duplicate_output empty_output : Failure
  unknown_letter : ℕ → Failure
  -- src/closure.c
  worklist_too_large worklist_no_memory worklist_no_memory_to_grow : Failure
  invalid_dependency : ℕ → Failure
  missing_required_type : ℕ → Failure
  -- src/requirements.c
  trace_no_memory trace_list_too_large trace_list_no_memory trace_unsupported_id : Failure
  invalid_type_id : ℕ → Failure
  non_record_type_id : ℕ → Failure
  invalid_member : ℕ → ℕ → Failure
  members_no_memory witness_write_failed : Failure
  trace_missing_type : ℕ → Failure
  trace_missing_member : ℕ → ℕ → Failure
  -- src/btf_index.c
  index_too_large index_no_memory : Failure
  -- src/seeds.c
  references_invalid_type : ℕ → Failure
  object_missing_type : ℕ → Failure
  ambiguous_type : Text → Failure
  ambiguous_anonymous_enum : Failure
  unresolved_type : Text → Failure
  chain_too_deep : ℕ → Failure
  member_search_too_deep : Failure
  unsupported_access : Text → Failure
  access_not_through_records : Failure
  invalid_object_member : ℕ → Failure
  unresolved_member : Text → Failure
  endianness_differs ext_missing ext_unsupported_header ext_unsupported_header_length : Failure
  ext_header_truncated : Failure
  ext_out_of_bounds ext_truncated ext_record_size : Text → Failure
  relocation_section_truncated relocations_truncated relocations_trailing : Failure
  -- src/emitter.c; `emitter_missing_type` and `header_write_failed` set no message
  emitter_invalid_type : ℕ → Failure
  emitter_missing_type header_write_failed : Failure
  qualifiers_too_long declarator_too_long array_declarator_too_long : Failure
  unsupported_kind : Text → Failure
  typedef_cycle : ℕ → Failure
  emission_too_large emission_no_memory header_no_memory forwards_no_memory typedefs_no_memory :
      Failure
  -- src/btf_loader.c
  base_not_parsed object_not_parsed : Text → Failure
  -- src/main.c
  output_path_too_long no_unique_output : Failure
  output_not_opened output_not_closed output_not_replaced : Text → Failure
  type_set_no_memory requirements_no_memory : Failure
  -- no message of the program: the rounds given to a loop of the model were too few
  out_of_fuel : Failure

pub data Result {ℓ} (A : Type ℓ) : Type ℓ where
  ok : A → Result A
  failed : Failure → Result A

-- Every result is a value or a failure.
pub Result-cases {ℓ} :
    {A : Type ℓ} (r : Result A) → ((a : A) × (r ≡ ok a)) ⊎ ((e : Failure) × (r ≡ failed e))
Result-cases (ok a) = inl (a, refl)
Result-cases (failed e) = inr (e, refl)

infixl 5 ◌>>=◌
abbrev pub ◌>>=◌ {ℓ κ} : {X : Type ℓ} {Y : Type κ} → Result X → (X → Result Y) → Result Y
failed e >>= next = failed e
ok x >>= next = next x

infixl 5 ◌>>◌
abbrev pub ◌>>◌ {ℓ} : {Y : Type ℓ} → Result (Unit {0}) → Result Y → Result Y
check >> next = check >>= λ _. next

-- A test that must hold, or else the function fails.
abbrev pub guard : Bool → Failure → Result (Unit {0})
guard false e = failed e
guard true e = ok tt

-- A successful sequence has successful parts.
pub >>=-eq-ok {ℓ κ} :
    {X : Type ℓ} {Y : Type κ} (run : Result X) (next : X → Result Y) {b : Y}
    → (run >>= next) ≡ ok b
    → (x : X) × (run ≡ ok x) × (next x ≡ ok b)
>>=-eq-ok (failed e) next good = cc
>>=-eq-ok (ok x) next good = (x, refl, good)

-- What follows a test that held.
pub guard-ok :
    {A : Type 0} (c : Bool) (f : Failure) (m : Result A) {x : A}
    → (guard c f >> m) ≡ ok x
    → m ≡ ok x
guard-ok true f m e = e
guard-ok false f m e = cc e

-- And the test did hold.
pub guard-true :
    {A : Type 0} (c : Bool) (f : Failure) (m : Result A) {x : A}
    → (guard c f >> m) ≡ ok x
    → c ≡ true
guard-true true f m e = refl
guard-true false f m e = cc e
