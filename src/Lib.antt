-- ===== src/Lib.antt =====
-- BinaryAtlas reads an ELF binary, disassembles its executable sections with Capstone, recovers
-- functions as graphs of basic blocks, and reports metrics, a call graph and heuristic findings, as
-- text, JSON or DOT. This library models the whole program, from the command line to its output.
--
-- How the parts interact. `main` (cli) parses the arguments and calls `BinaryAtlasEngine` (core), which
-- chains the stages. `ElfParser` (format) turns the bytes of a file into a `BinaryImage` with sections,
-- segments, symbols, relocations and strings. `Disassembler::disassemble` (disasm) cuts the bytes of
-- each executable section out of the image and decodes them into a `DisassemblyResult`, instructions
-- with an index by address. From both, `ProgramAnalyzer::analyze` (analysis) collects seeds, recovers
-- a function from each, keeps those that do not overlap, and computes metrics and the call graph.
-- `HeuristicDetector::analyze` (heuristics) reads all three. The writers (output, graph) render any of
-- them, and `main` prints or stores what they render.
--
-- Which file models what, with paths from the root of the repository:
--   Util.Arithmetic, Util.ByteReader, Util.Strings: include/binaryatlas/util (checkedAdd, ByteReader,
--     icontains, formatHex).
--   Core.Types, Core.Error, Core.Image: include/binaryatlas/core and src/core (types.cpp, error.cpp,
--     binary_image.cpp). `va_to_file_offset` is vaToFileOffset, `file_offset_to_va` fileOffsetToVa.
--   Disasm.Instruction, Disasm.Index, Disasm.Decode, Disasm.Buffer, Disasm.Sections:
--     src/disasm/disassembler.cpp, from one decoded instruction up to `disassemble`. Disasm.Capstone
--     states what the code relies on of the Capstone library.
--   Format: src/format/elf_parser.cpp. Reads is readBoundedSpan and readTable, Strings extractStrings,
--     Codes the maps of ELF codes, Ranges, Symbols and Relocations the loops of parseBuffer, Parse
--     parseBuffer itself, parseFile and BinaryLoader::load. ElfTypes states what is used of elf.h.
--   Analysis.Function, Analysis.Graph, Analysis.Metrics: include/binaryatlas/analysis,
--     src/analysis/graph_algorithms.cpp and src/analysis/metrics.cpp.
--   Analysis.Recovery: src/analysis/recovery.cpp. Seeds is collectSeeds and its helpers, Walk the two
--     loops of recoverFunction, Function what follows them, CallGraph buildCallGraph, Analyze
--     ProgramAnalyzer::analyze.
--   Heuristics: src/heuristics/detector.cpp. Vtable is detectVtableRegions, Function the tests on one
--     function, Detectors the single findings, Detect HeuristicDetector::analyze; Finding the types and
--     the keyword matches.
--   Engine: src/core/analyzer.cpp, load, disassemble and analyze.
--   Output: src/output/json_writer.cpp (JsonValues, JsonWriter), src/output/terminal_renderer.cpp
--     (TerminalLines, Terminal) and src/graph/dot_exporter.cpp (Dot). Output.Json states what is used
--     of nlohmann/json.
--   Cli: src/cli/main.cpp. Address is parseAddress, Options parseCli, Files emit and the
--     writes, Main the commands and main.
--   Util.FileIo: src/util/file_io.cpp, with the class Status of include/binaryatlas/core/result.hpp.
--   Prelude holds the lists, ordered sets and maps, sorting, byte strings and integers that all use;
--   Tests holds runs of the definitions and applications of the theorems.
--
-- How state is modelled. The mutable locals of a loop are the fields of a record (`Recovery`,
-- `BlockWalk`, `Claims`, `Cursor`, `Tarjan`), and a round of the loop is a function on it. Errors are values
-- of `Result`; a null pointer is `none`; an exception is the `none` of an `Option`, as that of
-- `std::map::at`, of the read of a file, and of the dump of a JSON value. An ordered set or map is an
-- ascending list. Addresses and sizes are natural numbers, and arithmetic that can wrap says so.
-- A confidence is kept in hundredths, and an average as the two numbers that are divided.
--
-- Fuel. The loop over a buffer has its length as fuel, since each round takes a byte. The walk along a
-- block has one round for each entry of the index, since the addresses rise. The loop over the pending
-- starts has three for each entry of the index and one more: an entry becomes a block once, and a
-- block adds at most two starts. The depth-first search has the number of edges and one more. The
-- conversion of a number to digits has the number itself and one more. The search for strings has the
-- number of bytes. Both loops over a section's pointers have its available bytes, of which a round takes
-- eight.
--
-- What is outside of the repository is a parameter. `Capstone` has the decoder and its constants, and
-- `IsDecoder` what is documented of it: an instruction begins at the address, has between one and
-- 24 bytes, and they are a prefix of the input. `Elf` has the constants of elf.h and the sizes and decodings
-- of its structs, and `IsElf` that some fields are below 2^64. `JsonLibrary` has the values of
-- nlohmann/json, and `IsJson` that `parse` reads what `dump` wrote. `FileSystem` has what opening,
-- reading, writing and creating give: `FileContents` is a file that does not open, one that opens and whose
-- read throws, as that of a directory does, or the bytes of a readable one.
--
-- Not modelled: an exhausted memory, and the exception of it; the ownership of the Capstone handle,
-- which has no behaviour but its release; the tests, the sample programs and the checked-in build directory. Doubles are numbers of hundredths, exact where
-- the program rounds. `std::sort` is an insertion sort: the standard leaves the order of equal entries
-- open.
pub mod Analysis
pub mod Cli
pub mod Core
pub mod Disasm
pub mod Engine
pub mod Format
pub mod Heuristics
pub mod Output
pub mod Prelude
pub mod Tests
pub mod Util
