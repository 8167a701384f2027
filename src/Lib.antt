-- ===== src/Lib.antt =====
-- A verification library for the TypeNative compiler: its lexer in crates/tn-syntax with the
-- diagnostics of crates/tn-diagnostics, and its middle, MIR, the validator and the passes over it, in
-- crates/tn-mir, with the types of crates/tn-hir that MIR is written in.
--
-- Parts and files
--
--   Diagnostics          crates/tn-diagnostics/src/lib.rs: ConditionId::new, SourceSpan::new,
--                        Diagnostic::error and the records. Source text is the list of its bytes.
--   Lexer                crates/tn-syntax/src/lexer.rs: Tokens is the data; Scan the callbacks and skips
--                        of comments and quoted literals; Templates the two scans of templates and
--                        interpolations, which call each other; Literals and Escapes the checks of
--                        literals; Source is lex_source and the diagnostics, Input is lex, in which what
--                        `from_utf8` finds is a parameter. The matcher that the Logos
--                        derive makes from the patterns of TokenKind is a parameter: what it finds at
--                        the start of a text is a kind and a number of bytes, and the kinds with a
--                        callback hand it the rest. Where a slice or an `expect` would panic, the model
--                        has a value of its own for it.
--   Incremental          crates/tn-syntax/src/incremental.rs: apply_edit. The parser is a parameter; a
--                        syntax tree is the list of the root's children with their texts.
--   Hir/Types            crates/tn-hir/src/lib.rs: Type, FunctionType and what they hold. `Type` is a
--                        reserved word here and is called `Ty`; a list of types inside a type is `Tys`.
--   Mir/Syntax           crates/tn-mir/src/lib.rs: places, operands, rvalues, statements, terminators,
--                        blocks and bodies. A closure holds a body of its own: the data take the type
--                        of closure bodies as a parameter, and `Body n` is the type of the bodies in
--                        which closures nest at most n deep. Every body of the program is a `Body n`
--                        for some n, and the passes recur on n.
--   Mir/Targets          The blocks that a terminator names, as a description that terminator_targets
--                        and successors are compared with.
--   Mir/ErrorLowering    crates/tn-mir/src/error_lowering.rs, lower_typed_errors.
--   Mir/Compatible       types_compatible of crates/tn-mir/src/validate.rs. It is bounded by fuel, the
--                        sum of the sizes of the two types.
--   Mir/Validate         the rest of validate.rs. Check is the state that the source's functions share
--                        by `&mut` (the set of initialized locals and the errors) as a state monad;
--                        Places, Rvalues and Statements hold the functions of the same names; Worklist
--                        is the loop of validate_dataflow over an abstract block transfer, and Bodies
--                        the transfer, the other passes and validate. A `BTreeSet` of locals is an
--                        increasing list (Prelude/Sets).
--   Mir/Drops            crates/tn-mir/src/drop_elaboration.rs: Semantics is DropSemantics, Instrument
--                        the updates of drop flags, Storage the argument flags and the split of storage
--                        deaths, Active the locals with live storage, Cleanup the chains of drops on
--                        edges and exits, Elaborate the pass. What the source pushes to `body.blocks`
--                        is appended to a list of blocks that is passed on.
--   Mir/Monomorphize     crates/tn-mir/src/monomorphize.rs: Types is substitute_type and
--                        contains_generic, Matching matches_target and infer_type, Bodies
--                        substitute_body, Instances the data and the registry, Discovery
--                        discover_instances and the visitors, Queue the loop of
--                        monomorphize_with_drops. A map from names to types is an association list, a
--                        `BTreeSet` of instances a sorted list; the derived order of instances is a
--                        parameter of the model.
--   Mir/Samples, Tests, Witnesses   small bodies, runs of the model, the theorems at concrete inputs.
--
-- Bounds and fuel. Identities (u32, u64) and indices are natural numbers; on the supported 64-bit
-- targets the source's conversion of a u32 to a usize never fails. A block's number in an error is
-- cut off at the largest u32, as in the source. The worklist loop of the validator has the fuel
-- 1 + blocks * (1 + local_bound), where local_bound exceeds every local that the body can initialize.
-- The loop of active_local_sets has the fuel 1 + blocks * (1 + locals + storage_bound), where
-- storage_bound is not below any local that the body makes live. The queue of monomorphization has one unit of
-- fuel for each instance; polymorphic recursion makes the source loop for ever, so enough fuel exists
-- exactly where the needed instances are finitely many. The panics of drop elaboration are
-- not modelled: more than 2^32 locals or blocks, an edge to a block that is not there (the model reads
-- no state there) and a body without blocks.
--
-- The scans of a template have the fuel of the text's length and 2, the check of escapes that of the
-- length and 1, lex_source one unit for each byte. The lexer's nesting depths are natural numbers: more
-- than 2^32 open comments or braces are not modelled, nor are slices inside a character: the source panics
-- there, also where SourceSpan::new is given a start inside a character, and the model, whose text is
-- bytes, goes on. A slice past the end of the text, or with its ends the wrong way round, is a panic in
-- the model too.
--
-- Not modelled: Debug and Display output, and the other parts of the
-- repository: the parser, name resolution, type checking, the LLVM backend, the driver and its tools,
-- and the compiler, runtime and library that are written in TypeNative.
pub mod Diagnostics
pub mod Hir
pub mod Incremental
pub mod Lexer
pub mod Mir
pub mod Prelude
