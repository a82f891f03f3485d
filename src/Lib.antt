-- ===== src/Lib.antt =====
-- min-corehdr: from BPF object files and a base BTF to a reduced C header.
--
-- The program reads the base BTF through libbpf, builds an index from names and kinds to its types
-- (src/btf_index.c), extracts from each object the ids of base types that it needs into a set of
-- type ids (src/type_set.c) and a structure of requirements with their explanation
-- (src/requirements.c), closes the set under the references between types (src/closure.c) and
-- emits the types of the set as a C header (src/emitter.c). The closure and the emitter read the
-- requirements to leave out the members that no relocation needs. The command line (src/cli.c) says
-- which files and which options, and src/main.c runs the phases and replaces the output file.
--
-- What models what:
--   Btf           the BTF as libbpf presents it, with the accessors of src/btf_loader.c. The record
--                 Btf is a parameter of every function that reads one: its fields stand for
--                 btf__type_cnt, btf__type_by_id, btf__name_by_offset and btf__str_by_offset.
--   Errors        the failures that the modelled functions report, and sequences that may fail;
--                 Yields has properties of what they return.
--   TypeSet       struct mch_type_set: init, destroy, contains, add and next are the functions
--                 mch_type_set_*, iterate is the loop over next. Words and Laws have the bits and
--                 the validity of a set, Scan and Iterate the enumeration, Extends
--                 the sets that grow.
--   Requirements  struct mch_requirements: init, destroy, add_type_root, add_record_member,
--                 contains_type_root, contains_record_member, has_record_members and stats are the
--                 functions mch_requirements_*. Explain has mch_requirements_write_explanation.
--                 Bitsets, Valid, Fresh, Roots, Ensured, Members and Witnessed hold the proofs.
--   Index         struct mch_btf_index: init, lookup and lookup_anonymous_enum are mch_btf_index_*,
--                 insert is index_insert. Chains, Insert, Answers, Build, SameEnum and Enums
--                 hold the proofs.
--   Closure       mch_compute_dependency_closure_with_options as compute, with its worklist as the
--                 list of waiting ids in State. Deps, Kept, Refers, Grows, Failures, Reach,
--                 Correct and Total hold the proofs; Refers and Reach define the references and reachability.
--   Seeds         resolve_object_type_to_base and mch_extract_object_seeds*, on the object's BTF;
--                 Access has the access strings of CO-RE relocations and the members they mark.
--                 Kinds, Unique, Matches, Resolve, Components, RoundTrip and Extends
--                 hold the proofs.
--   Relocations   mch_extract_core_relo_seeds*, on the bytes of .BTF.ext. Bytes has reads that may
--                 go wrong, Places the sections, lines and functions; Sections, InBounds
--                 and Extends hold the proofs.
--   Emitter       mch_emit_header*: the groups of the required types and the whole header. Names has
--                 the names of types and their qualifiers, Decl the declarators and the bodies of
--                 records, Order the definitions and what must come before them. Groups, Grows,
--                 Written, Parts, Steps, Definitions, Loops, Complete and Qualifiers hold the proofs.
--   Reports       struct mch_error and the functions mch_error_*.
--   Loader        struct mch_btf_doc, mch_load_base_btf and mch_load_object_btf.
--   Files         write_header_to_path of src/main.c; Disk is the interface of the file system.
--                 Atomic has the laws that POSIX gives it, and the proof.
--   Program       main and its phases; Host is the record of what it calls. Rounds,
--                 Atomic and Complete hold the proofs.
--   Cli           mch_cli_parse as parse, on argv without argv[0]; Usable has the proof. Texts has
--                 the help and version texts.
--   Bits, Count, Prelude   arithmetic on bits, counting, and what all parts share.
--   Tests         runs on small inputs, and each theorem at one input.
--
-- Conventions. Memory is explicit state, a function that may fail returns a Result, and a failure
-- carries no state, since the program frees everything once a call has failed. `alloc n` says
-- whether an allocation of n bytes succeeds; the allocations of the emitter also have their number,
-- since three of them have one size. A
-- null pointer is `none`, or an empty list where the pointer is an array. Numbers are natural
-- numbers; where the C code can wrap, the result is taken modulo the width of its type. Sizes are
-- those of a 64-bit host. The constants of linux/btf.h are a parameter of the index, those of
-- linux/bpf.h one of the relocations. A function that prints gives the text that it writes. Two paths
-- with different texts are taken for different files.
--
-- Bounds and fuel. The loop of the closure takes as many rounds as the set has ids and one more:
-- each id waits at most once. The walk of a chain of the index takes as many rounds as there are
-- entries: a chain leads to ever smaller positions. The scan of a set takes a round for each word.
-- The loop over an access string takes as many rounds as it has bytes: each component takes one.
--
-- The loop over the sections of .BTF.ext takes as many rounds as there are bytes, and would be stuck
-- if it needed more. The emitter recurses over types without a bound, and so does its loop over
-- qualifiers: they take the fuel of the caller. A run that uses it up has no outcome in the model; the
-- program goes on.
--
-- Not modelled: the progress lines of --verbose, the file, detail and hint lines of an error where a
-- constructor of Failure stands for its message, the part of a header that is written before the
-- emitter fails, libbpf, and the tests, examples and scripts of the repository.
mod Prelude
mod Bits
mod Count
pub mod Btf
pub mod Errors
pub mod Cli
pub mod TypeSet
pub mod Requirements
pub mod Index
pub mod Seeds
pub mod Relocations
pub mod Closure
pub mod Emitter
pub mod Reports
pub mod Loader
pub mod Files
pub mod Program
mod Tests
