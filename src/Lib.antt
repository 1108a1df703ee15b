-- ===== src/Lib.antt =====
-- remill-tester: a harness that replays hardware-generated x86-64 test vectors through Remill.
--
-- The program reads corpora in the pooled text format, decodes each instruction with XED, compiles
-- it with Remill and LLVM, runs it on a register state and a guest memory, and compares what is
-- observed with the row of the corpus. Here is what each part is and which file models it.
--
--   Base            shared helpers: Boolean tests, lists, machine words and their bit laws
--                   (Base/Bits), byte strings (Base/Text), ordered maps (Base/Map), little-endian
--                   scalars (Base/LittleEndian), results that may be an exception (Base/Result),
--                   the character functions of the C++ library (Base/Chars), and the round trip of decimal
--                   numbers (Base/Printing).
--   GuestMemory     src/guest_memory.cpp and .hpp: pages, permissions and the recorded fault.
--                   Map is map_range, CheckAccess check_access, Write and Read are in
--                   GuestMemory/Transfer. The other children hold the theory: Access of the
--                   bytes that may be accessed, Check of access checks, Contents, Store and Chunk
--                   of the copying loops, RoundTrip, Mapping, Scalar, Terminates of the ends of the
--                   loops, and Fault for sequences of operations.
--   Expectation     src/expectation.hpp: rows, memory cells and execution results.
--   Parser          src/x86tester_parser.cpp: Strings, Header and Row have the functions of those
--                   parts, File the two passes ParseFile and ParseInstructionHeaders. Splitting,
--                   Trimming, Hex, Indices, Numbering and Agreement hold the theory.
--   FlagMasks       src/flag_masks.cpp: the RFLAGS constants and the names of the bits.
--   XedMetadata     src/xed_metadata.cpp: what Decode makes of the answers of XED. Disjoint has the
--                   theory of its flag sets.
--   StateBridge     src/remill_state_bridge.cpp: named registers, flags and the x87 status word of
--                   Remill's State; Sparse has ApplyInitialState and the snapshots. Registers and
--                   Flags hold the theory.
--   Comparator      src/comparator.cpp: Masks has the flags that shifts and rotates leave undefined,
--                   Compare has CompareExecutionResult, Report has FormatMismatch. Conforms has the
--                   description that the comparison is checked against.
--   Intrinsics      src/remill_intrinsics.cpp: the memory intrinsics that compiled code calls; Calls
--                   has the functions under the names that it finds, with the hypercalls and the
--                   ports, Symbols their registration. Atomic and Refines hold the theory.
--   Backend         src/remill_backend.cpp and .hpp: RunCase around a compiled function, with
--                   StateErrors on a state that cannot be set up. Pending has the members and
--                   DefineInPendingModule, Compiler has FinalizePendingModule, Compile, PrepareCases
--                   and RunCase on the members. Its children hold the theory: Extends and Linking of
--                   the cache, Invariant and Operations of what every call keeps, Memo of repeated
--                   calls, Attempted, Prepared and Healthy of PrepareCases.
--   Tester          src/tester_main.cpp: Options is ParseOptions, Operands, Unsupported and Skip
--                   decide which rows are skipped, Json has the report lines, Summary the counters,
--                   Output what is printed, Prepare the pass over the headers, Run the loop over the
--                   rows, SelfTests the built-in tests, Main the rest of Run and main.
--                   Options/Canonical, Operands/Keys, Prepare/Collected, Run/Accounting, Run/Loop,
--                   Run/Covers and Main/Status hold the theory.
--   Tests           inputs on which the definitions are evaluated.
--
-- The parts meet in Main: ParseOptions gives the options; with --execute the pass of Prepare reads
-- the headers of the corpora and hands its rows to PrepareCases; the loop of Run then takes each row
-- of ParseFile through the decoder, RunCase on the members of the backend, and the comparison, which
-- are parameters of the loop, so that what it counts holds for any of them. RunCase fills a guest
-- memory and a State from the row, calls the compiled function, which may call the intrinsics on the
-- same memory, and gives the observed values to the comparator.
--
-- State is passed explicitly: an operation on an object gives the object that it leaves. Exceptions
-- are results. Addresses, sizes, limits and words are natural numbers with their wrap-around written
-- out; the counters of a run and of ParseFile, which count the rows of files, do not wrap around. A
-- string is the list of its bytes, a file the list of its lines, an ordered map the list of its
-- entries in key order, and the bytes of a page a function of the offset.
--
-- Loops that are not structural run on fuel. A copying or checking loop of the memory takes at least
-- one byte in each round and has as much fuel as bytes; Map takes one page in each round and has the
-- number of pages as fuel; Split has one more than the length of the text; a number is printed on
-- 64 digits, which are enough for a word of 64 bits in any base. The theorems below are about the
-- operations with this fuel.
--
-- Third-party code is a parameter: XED (what it answers on an opcode), Remill, LLVM and its JIT (the
-- record Toolchain of Backend/Pending, which each call may meet anew, and the symbol table, which
-- gives a name one function), the file system, the number of vector registers of Remill's State. A
-- pointer into the backend's cache is the key of its entry, and the `error` of the backend's
-- operations is passed in and out. The symbol table answers the same throughout, also for names of
-- modules that the JIT has not taken. Not modelled: what LLVM does to a module before the JIT takes
-- it, that a second initialisation of the logging library ends the program, exceptions of memory
-- allocation (as of `reserve` in ParseFile), standard error, src/exepath.hpp, helpers/ (intrinsics
-- over an external array, built as bitcode, which the tester does not use) and the Python scripts of
-- tools/.
mod Base
pub mod GuestMemory
pub mod Expectation
pub mod Parser
mod Tests
pub mod FlagMasks
pub mod XedMetadata
pub mod StateBridge
pub mod Comparator
pub mod Tester
pub mod Intrinsics
pub mod Backend
