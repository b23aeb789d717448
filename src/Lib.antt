-- ===== src/Lib.antt =====
-- Wasmnizer-ts compiles TypeScript to WebAssembly. The front end (src/parser.ts and the files
-- beside it) builds a tree of scopes with types, expressions and statements; the semantic check
-- walks it; the semantics builder (src/semantics) turns it into semantic nodes; the flattening
-- turns a node's statements into nested blocks with branches; the backends emit a module. The
-- bytecode backend collects its strings and tables in a data pool, the Binaryen backend its
-- strings and tables in a data segment.
--
-- Base has the names, list functions and tests that the modules share.
--
-- SemanticCheck is src/semantic_check.ts. `semantic_check` is `SemanticChecker.sematicCheck`: it
-- runs `check_scope` (the callback) on each scope of the tree by `traverse_scope`. Each method has
-- a function of its name. A check takes the errors found so far to those found after it;
-- `none` stands for the `TypeError` of a read from `undefined`. SemanticCheck/Syntax has the
-- scopes, types, expressions and statements (src/scope.ts, src/type.ts, src/expression.ts,
-- src/statement.ts, src/variable.ts) as far as they are read. Messages are represented by the data
-- they are built from. A chain of base classes ends.
--
-- Flatten is src/semantics/flatten.ts from `FlattenContext` on. `flatten_statement` is
-- `flatternStatement`, `flatten_function` is `flattenFunction`. A context's stack of blocks with
-- their parents is a list of frames; a value that a block is given is a piece of `Code`
-- (Flatten/Blocks, for src/semantics/value.ts). A condition and a value are numbers that a machine
-- gives a meaning to. Flatten/Statements has the nodes of src/semantics/semantics_nodes.ts.
-- Flatten/Semantics has an independent meaning of statements and of block code. `none` stands for
-- the exception for a `break` outside of any block. A structured statement is one without `else`,
-- `switch`, `break`, `continue` and `for … in/of`, as Flatten/Structured defines it.
-- Flatten/Conditions is `flattenConditionValue`.
--
-- DataPool is src/semantics/ir/data_pool.ts. A string is its list of UTF-16 code units, the buffer
-- a length and a function from indices to bytes; `none` stands for an exception. All offsets
-- are natural numbers below 2 ^ 31, where JavaScript's bit operations agree with arithmetic.
-- The loop that pads a string has fuel 3, since it stops at the next multiple of 4; all others are
-- structural recursion on a list or on a count that the source has before the loop.
--
-- DataSegment is `DataSegmentContext` of src/backend/index.ts with `utf16ToUtf8` of
-- src/backend/binaryen/utils.ts, at the alignment 4 that every caller uses. `DataSegment/Layout`
-- says how the segments lie, `DataSegment/Segment` reads the generated segment, and
-- `DataSegment/Reading` has the lookup of strings. It uses the `Uint8Array` of DataPool.
--
-- GlobalContext is src/semantics/ir/ir_context.ts up to `finishBuild`: the numbering of a module's
-- variables, functions, object types, object descriptions and shapes. The objects that are keys of
-- a map are numbers standing for their identities; a map is the list of its entries in insertion
-- order. GlobalContext/Maps has the lemmas on numbering a list, and GlobalContext/Indices the
-- indices handed out. GlobalContext/Externs is `buildExternModules`, which stores names in the
-- data pool (DataPool) and looks the indices up.
--
-- MemberDescription is the flags word of that class in src/semantics/runtime.ts, as a 32-bit
-- pattern with arithmetic in place of shifts and masks.
--
-- ObjectModel is the rest of that file that is modelled: `ObjectDescription` with `findMember`,
-- `findFreeSlot`, `updateMember` and `buildShape`, and `Shape`. An array of members is a list of
-- optional members. ObjectModel/Arrays has reads and writes of such arrays, ObjectModel/Members
-- the free places, ObjectModel/Updates `updateMember`, ObjectModel/Shapes the shapes,
-- ObjectModel/Counterparts which member stands for which and ObjectModel/Building what is built.
-- `buildShape` is modelled from the point where no compatible shape is known and the description
-- is not generic.
--
-- RuntimeData is src/semantics/ir/irmodule.ts from `MemberDescriptionInfo` to the end of
-- `RuntimeData`: the block headers, `ShapeMemberInfo` and `buildExterns`; RuntimeData/Objects has
-- `buildObjectDescriptions` and `buildShapes`, with the words of shapes in
-- RuntimeData/Objects/Listing, RuntimeData/Objects/MemberWords and RuntimeData/Objects/Written. It
-- writes to the data pool (DataPool) and asks GlobalContext for the indices of functions.
-- RuntimeData/Words writes and reads lists of words, RuntimeData/Blocks says what a block is,
-- RuntimeData/Reader reads a table, and RuntimeData/Build is `build`, which writes all of them.
--
-- IrCode is src/semantics/ir/ircode.ts: the kinds of instructions and values, the instruction, and
-- IrCode/Instructions its static methods. `pack_call` is the operand of a call by vtable, shape or
-- name; IrCode/Packing is about it.
--
-- IrFunction is src/semantics/ir/function.ts: `Context` and `IRFunction`, which turn the flattened
-- value of a function into instructions. IrFunction/Tree has the values of src/semantics/value.ts
-- that it reads; IrFunction/Parts and IrFunction/Builder are `buildValue` with what it calls. A
-- step takes a context to the instructions it pushes and the context after it; `none` stands for
-- an exception. It asks GlobalContext for the indices of globals and stores names in the data pool
-- (DataPool). IrFunction/Locals and IrFunction/Lookup are about the stack of local variables;
-- IrFunction/Room, IrFunction/Sound, IrFunction/Steps, IrFunction/ValueSteps and
-- IrFunction/Indices about the indices in the code; IrFunction/Returns, IrFunction/Building,
-- IrFunction/Operating, IrFunction/Buildable and IrFunction/Built about exceptions.
-- IrFunction/Machine has an independent meaning of instructions on a stack and of assignments,
-- with what constants and operators mean as a parameter, and starts from the block that
-- `flattenFunction` makes; IrFunction/Runs, IrFunction/Slots, IrFunction/Correct and
-- IrFunction/Assignments relate the code to it.
--
-- ScopeTree is src/scope.ts: the numbering of parameters and variables (`initParamIndex`,
-- `initVariableIndex`, `assignVariableIndex`; ScopeTree/Indices and ScopeTree/Initial) on a tree of
-- scopes, and the walks to the root (`findVariable`, `isDeclare`, `isAbstract`,
-- `getRootFunctionScope`, `addDeclareName`; ScopeTree/Lookup) on the list of a scope and its
-- ancestors. The number of environment parameters is that of lib/builtin/builtin_name.ts.
--
-- ValueTypes is src/semantics/value_types.ts with the `equals` of each class on finite types.
-- `equals` is cut off at a depth, since a union asks its members in the other direction, too; how
-- deep the classes of a type are nested is `depth` of ValueTypes/Equality; ValueTypes/Same says
-- when types are equal. Which objects are the same, as `Set.has` asks, is a parameter.
--
-- Not modelled: the parts that work on the TypeScript compiler's trees (parser, type resolver,
-- expression and statement processors), those that call Binaryen (src/backend/binaryen), and the
-- command line, since these libraries are not part of the repository. Of src/semantics the
-- printing of src/semantics/ir, the import functions and `IRModule`, generic descriptions
-- (runtime.ts) and the flattening of values in values are left out, and the builder that makes the
-- nodes.
pub mod Base
pub mod DataPool
pub mod DataSegment
pub mod Flatten
pub mod GlobalContext
pub mod IrCode
pub mod IrFunction
pub mod MemberDescription
pub mod ObjectModel
pub mod RuntimeData
pub mod ScopeTree
pub mod SemanticCheck
pub mod ValueTypes
