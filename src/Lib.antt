-- ===== src/Lib.antt =====
-- The EMV Level 2 kernel of Hyperion-X (the crate of Cargo.toml, whose modules are the files of src/).
--
-- The parts of the kernel and how they interact. A transaction is driven by the state machine of
-- src/fsm.rs; each of its stages is a pure function of its own file that takes what the stages before
-- it found and returns what it marks in the two bitmaps of src/state.rs. The card is read through
-- command APDUs (src/apdu.rs) whose data are filled from data object lists (src/dol.rs), its answers
-- are BER-TLV (src/tlv.rs) with a status word (src/sw.rs), and the records to read are planned from the
-- application file locator (src/afl.rs) that the answer to GET PROCESSING OPTIONS carries (src/gpo.rs);
-- the cryptogram comes with the answer to GENERATE AC (src/gac.rs). Processing restrictions
-- (src/restrictions.rs), cardholder verification (src/cvm.rs) and terminal risk management (src/trm.rs)
-- set bits of the TVR, and the terminal action analysis (src/taa.rs) decides on it. The application is
-- chosen from the card's names and the profiles (src/selection.rs, src/config.rs), the records that are
-- read go into the data store (src/record.rs), the host's response brings issuer authentication and
-- scripts (src/issuer.rs), and the contactless kernel has outcomes and limits of its own (src/c8.rs).
-- The orchestrator (src/ffi.rs) holds the context of the transaction, sends the commands through a
-- callback, and moves the machine from phase to phase.
--
-- Which file models which part, with the names of the source in snake case:
--   Base              shared: byte-string equality, lists over native numbers, bits, and
--                     `KernelError` with `KernelResult` of src/error.rs, whose `?` is the bind
--   State             src/state.rs: `Tvr` and `Tsi` with `set`, `clear`, `is_set`, `has_rfu_bits`
--   Tlv               src/tlv.rs: `parse_many`, the finders, `flatten`, tag lists
--   Dol               src/dol.rs: `DataStore`, `parse_dol`, `build_dol_with_policy`
--   Fsm               src/fsm.rs: `code`, `transition`, `apply`
--   Taa               src/taa.rs: `TaaProfile::new` as `new_profile`, `decide`
--   Trm               src/trm.rs: profiles, `evaluate`
--   Restrictions      src/restrictions.rs: dates, usage control, `evaluate`
--   Apdu              src/apdu.rs: the commands, `encode`
--   Afl               src/afl.rs: `parse_afl`, `record_plan`, `read_record_commands`
--   Gpo               src/gpo.rs with the parse of src/aip.rs: `parse_gpo_response`, `parse_pdol_from_fci`
--   Gac               src/gac.rs and src/cid.rs: `parse_generate_ac_response`, the online package
--   Numeric           src/numeric.rs: `encode_numeric_bcd_fixed`, `decode_numeric_bcd_fixed`
--   Sw                src/sw.rs: `classify`
--   Cvm               src/cvm.rs: `parse_cvm_list`, `evaluate`, the status of an offline PIN
--   Record            src/record.rs: `parse_read_record_body`, the PAN and track 2
--   Issuer            src/issuer.rs: `parse_host_response`, `apply_script_results`
--   Contactless       src/c8.rs: `ContactlessOutcome::new` as `new_outcome`, limits, relay resistance
--   Config            src/config.rs: the profiles and the checks between them; src/aip.rs; the classes
--                     of src/transaction.rs
--   Selection         src/selection.rs: `parse_fci_candidate_aids`, `match_profile_candidates`
--   Ffi               src/ffi.rs: `KrnContext`, `transmit_apdu_with_followups`,
--                     `read_application_records`, `run_terminal_action_analysis`,
--                     `run_first_generate_ac`, `apply_host_response`, `run_issuer_authentication`,
--                     `run_issuer_scripts_for_phase`, `run_final_generate_ac`, and the calls of the C
--                     interface for them; the codes of src/error.rs
-- In each of them the module of the part holds the definitions, its children the proofs, and Tests runs
-- of the code.
--
-- How the code is modelled. Bytes and machine integers are natural numbers; where the source shifts or
-- casts, the model reduces by the width. Slices with an offset are the rest of the list. `&mut self` is
-- a state passed on. A `[u8; N]` is a list, and a theorem that needs its length says so. Errors are
-- values of `KernelResult`. The loops of the TLV parser, of tag lists and of data object lists run on
-- fuel that starts at the length of the input; each round consumes a byte, so it is enough. Where it
-- runs out the model returns `internal_error`, which those files of the source never return.
--
-- The context of src/ffi.rs is a session: the context with the commands that were sent. An operation
-- takes the session and returns it with a result, so that an error keeps what was changed before it.
-- The callback that sends a command is a parameter, a function from the commands sent so far to the
-- status and the response; nothing is asked of it, so the theorems hold for every card. A command has
-- five rounds, as the loop of the source has. The check of a CDA signature at the first GENERATE AC is
-- a parameter too, of which nothing is asked. The fields of the context that no modelled operation reads
-- are left out. The pointers of a call are valid; whether the callbacks are set is a field.
--
-- Not modelled: the `Debug` output, offline data authentication with its big integers and hashes, the
-- reading of JSON profiles and the checks of their fields, the terminal's capabilities (src/terminal.rs,
-- whose terminal types stand in Ffi), the phases of src/ffi.rs up to terminal risk management other than
-- reading the records, with the getters of its C interface, and the reports and audits of the repository.
pub mod Base
pub mod State
pub mod Tlv
pub mod Dol
pub mod Fsm
pub mod Taa
pub mod Trm
pub mod Restrictions
pub mod Cvm
pub mod Apdu
pub mod Afl
pub mod Gac
pub mod Gpo
pub mod Sw
pub mod Config
pub mod Contactless
pub mod Ffi
pub mod Issuer
pub mod Numeric
pub mod Record
pub mod Selection
