-- ===== src/Lib.antt =====
-- Verification of the certification core of the COBOL to Java transformation pipeline.
--
-- The pipeline runs a COBOL program on an oracle (GnuCOBOL in a pinned container image) and its Java
-- candidate on the same input, compares the artifacts that the two runs leave, records all of it in an
-- evidence manifest, validates the manifest, and derives a verdict from it. This development models
-- the part that decides:
--
--   comparators  compare two artifacts and report MATCH, MISMATCH or INCONCLUSIVE;
--   evidence     binds executions, artifacts and comparisons in a manifest with a seal; the validator
--                checks every binding, and accepts the manifest or lists its violations;
--   verdict      reads the manifest and gives one of seven states.
--
-- They interact by values only: a comparison's result text stands in the manifest, the validator wraps
-- the accepted manifest with its hash, and the deriver reads the wrapped manifest. Around them stands
-- the run store, which keeps the manifest and the verdict of each run, the stage that the run has
-- reached, and the customer's decision. The contracts say which comparators a validation may use, and
-- the sandbox functions read the files of which the two runs' artifacts are made. Three parts of the
-- transformation itself stand alone: the lines and literals of COBOL source text, the normalization of
-- numeric literals, and the storage of COBOL groups and REDEFINES in Java fields.
--
-- Files and the code that each is about:
--   Domain                    engine/domain/identities.py: ids, hashes, identities and their checks
--   Numeric                   engine/transformation/numeric_semantics.py: numeric literals. The code is
--                             in Numeric/Literal, on lists of ASCII codes; the number that a literal
--                             stands for in Numeric/Value, storage by a picture in Numeric/Picture,
--                             proofs in the other children
--   Comparators/Model         engine/comparators/framework.py: results and differences
--   Comparators/Identity      CANONICAL_COMPARATOR_IDS, COMPARATOR_ID_ALIASES, resolve_comparator_id
--   Comparators/Registry      ComparatorRegistry and the functions that fill one
--   Comparators/Policy        TypedComparator: _handle_missing, _apply_ordering, _normalize; the proofs
--                             about lines are in Policy/Lines
--   Comparators/Text          StdoutComparator, StderrComparator, TextFileComparator; proofs in
--                             Text/Match, Text/Supported and Text/Unterminated
--   Comparators/ExitStatus    ExitStatusComparator; int() in ExitStatus/Parse, proofs in
--                             ExitStatus/Exact
--   Comparators/FixedRecord   FixedRecordComparator; proofs in FixedRecord/Exact
--   Comparators/IndexedRecords engine/comparators/indexed_records.py: the records of a Berkeley DB
--                             image and their canonical text; in its children what a page says
--                             (Page), the tree that an image holds (Tree), and proofs
--   Comparators/RelativeRecords gnucobol_relative_records of the same file; its children have a
--                             file as a list of slots, the image of it, and proofs
--   SourceFormat              engine/transformation/source_format.py: fixed and free format,
--                             continuation lines; the rewriting of literals in Literals, and
--                             code_mentions and unquote_literal in Mentions; proofs in
--                             Literals/Tokens, Lines (where each line goes in Lines/Positions)
--                             and Mentions/Exact
--   Storage/Redefines         engine/transformation/redefines.py: the plan of REDEFINES views; proofs
--                             in Bytewise, Overlay, Plan and Nested
--   Sandbox/Files             engine/execution/workspace_files.py: the files that are taken out of a
--                             sandbox; proofs in Bounds, Complete and Collision
--   Contracts                 engine/contracts: models.py in Contracts/Model, the loaders and the
--                             validator of validator.py in Load and Validator, proofs in Closed
--   Evidence/Model            engine/evidence/models.py: the evidence records and is_complete
--   Evidence/Graph            canonical_evidence_graph, _graph_hash, manifest_hash, __post_init__
--   Evidence/Violation        engine/evidence/integrity.py: violations
--   Evidence/Bindings         the checks of run, workload, source, oracle image and artifacts
--   Evidence/Pairing          the checks of the comparisons
--   Evidence/Completeness     source mutation, exit status, seal and required evidence
--   Evidence/Integrity        EvidenceIntegrityValidator.validate
--   Evidence/*/Exact          each check against its condition
--   Evidence/Admission        the conditions together
--   Verdict/Model             engine/verdict/derivation.py: Verdict, and the wrapped manifest
--   Verdict/Analysis          the private methods that read the evidence, the comparison loop
--   Verdict/Derive            derive, derive_from_validated, derive_untrusted; proofs in its children
--   Certification             what a VERIFIED verdict rests on, and what the seal detects
--   Runs/Stage                api/models.py RunStage, api/store.py is_valid_transition; proofs in
--                             Stage/Order
--   Runs/Model                api/store.py: RunRecord, the approval events and the errors
--   Runs/Table                the SQL statements on the table of runs; laws in Table/Laws
--   Runs/Store                the operations of Store on runs; inversions in Store/Outcome
--   Runs/Step                 the histories of a store, as a step relation
--   Runs/Attempt              the abstract lifecycle of one run, and proofs about histories
--   Storage/Item              engine/transformation/ir.py: DataItem; the searches of group_storage.py
--   Storage/Figurative        engine/transformation/figurative.py; proofs in Figurative/Width
--   Storage/Layout            engine/transformation/group_storage.py: group_layout; proofs in its
--                             children
--   Storage/Move              group_move_problem there, _group_view_expression and
--                             _group_move_statements of cobol_to_java_mapping.py; proofs in its children
--   Examples                  concrete runs and contents, with the theorems at them
--   Common                    lists, texts, bytes, integers and exceptions as values
--
-- How the code is represented. A frozen dataclass is a record, an id of one text field is that text,
-- a dict is the list of its items, bytes are lists of numbers, an optional value is an Option, and a
-- raised exception is the `err` of a Result. A message is data: a constructor for each text, with the
-- values that the code formats into it. The loops are structural recursion over the lists that the
-- code iterates. Only the walk over the pages of an indexed file takes fuel: one call more than the
-- file has pages, which is enough since every call that gets further sees a page of the file that was
-- not seen before. A run's row is a record of its columns, the table is the list of its rows, and an
-- SQL statement is a function on that list; the lock makes each operation one step. The Java that is
-- written for a MOVE is data, run by a small interpreter in which String.format pads and cuts as Java
-- documents it.
--
-- From outside come json.dumps with sha256 (the record Hashing: the bytes of a graph, and the hex
-- digest of bytes) and the clock (Platform). They are arguments of the definitions, with no assumption
-- about them; where a theorem needs two manifests to have different digests, it says so as a
-- hypothesis on these manifests.
--
-- Not modelled: the BUSINESS_INVARIANT comparator, canonical_relative_records, the emulation files of
-- the generated runtime, the to_dict functions, the content-addressed storage, the business invariants,
-- the paths and plans of a sandbox, the jobs of JCL and their dependencies, the control flow analysis,
-- write_targets of redefines.py, the format and suffix functions for numbers, text outside ASCII, the
-- names that Java fields get, file records and moves out of a group, the parsers and generators of
-- engine/transformation, engine/jcl, engine/cics and engine/sql, the runners that call Docker
-- (engine/oracle, engine/candidate, engine/execution), the orchestration (engine/pipeline.py,
-- engine/workload.py, engine/modernization), the rest of the HTTP service (api), with the applications
-- of the store, the encoding of rows and Python's limit on the depth of recursion, the frontend and the
-- scripts.
pub mod Common
pub mod Domain
pub mod Contracts
pub mod Numeric
pub mod Runs
pub mod SourceFormat
pub mod Sandbox
pub mod Storage
pub mod Comparators
pub mod Evidence
pub mod Verdict
pub mod Certification
pub mod Examples
