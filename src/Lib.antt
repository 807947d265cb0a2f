-- ===== src/Lib.antt =====
-- riscv-sbt, a static binary translator from 32-bit RISC-V to LLVM IR, and the benchmark programs
-- that it is measured with.
--
-- The translator, sbt/ (Sbt.antt and the modules below it).
--   Sbt/Map: the sorted vector of sbt/Map.h, which keeps blocks and functions by address: `lookup`,
--     `upsert`, `lower_bound` and `erase`. An iterator is an index.
--   Sbt/Ir and Sbt/Builder: the emitted code as data, and the methods of sbt/Builder.h that emit it.
--     LLVM is not part of the repository: what its instructions do is the parameter `Llvm`, and the
--     record `LangRef` of Sbt/Ir/LangRef holds what the translator relies on of the language
--     reference: wrap-around arithmetic, shifts below the width, division by a divisor that is not
--     zero and with no overflow, extensions, comparisons, and little-endian memory access by address.
--     `model` is an instance. Registers and memory of the guest are functions of the register's
--     number and of the 32-bit address; constant folding by LLVM's builder is not visible here.
--   Sbt/Operand and Sbt/Instruction: `getReg`, `getImm` and the methods `translate*` of
--     sbt/Instruction.cpp for RV32IM, emitting code for one decoded instruction; of a branch or a jump,
--     the handler that `translateBranch` calls and the code for its condition or address. Sbt/Rv32 is the
--     RISC-V manual's meaning of the same instructions, written apart from the translation.
--     The decoder is LLVM's: an instruction comes as its opcode and operands. Sbt/Instruction/Csr has
--     `translateCSR` with `getCSRValue`, `setCSRValue` and `initCounters` of sbt/Translator.cpp, whose
--     flag is an argument and a result; the functions of the runtime that read a counter are a
--     parameter.
--   Sbt/Float and Sbt/Builder/Float: `translateF` of sbt/Instruction.cpp and the methods of
--     sbt/Builder.h that it calls. Sbt/Float/Ieee has the arithmetic of IEEE 754 as the parameter
--     `Ieee`, and the record `FloatRef` of what the language reference says of LLVM's floating point
--     instructions by it: the same number, where which NaN, and which zero of two, is left open. The
--     manual fixes both, and takes one arithmetic for each rounding mode. A floating point register is a pattern of 64 bits, of which a narrow access
--     takes the low half. Sbt/Hart is the state that the guest sees.
--   Sbt/Typing: the rules that LLVM's verifier has for the types and the order of the emitted
--     instructions, within the code of one guest instruction. A pointer is one to an integer or a
--     floating point number of a width, and a load or a store goes through a pointer to its own type.
--   Sbt/Relocation: `SBTRelocation::handleRelocation` of sbt/Relocation.cpp, the constant that each
--     type of relocation makes of a symbol's value, and Sbt/Relocation/Cursor: `getReloc` and the
--     proxies of a call; the recursion of `handleRelocation` has fuel 2, the call and its first part.
--     The address of the high part is a member that only a proxy has: for a low part that the ELF
--     file relocates by itself the code reads it all the same, and the model has no result.
--   Sbt/Section: `SBTSection::translate` of sbt/Section.cpp, the symbols that delimit the functions;
--     the translation of one function is a parameter there. Sbt/Section/Switch has the functions that
--     a call makes known: `getByAddr`, `updateNextFuncAddr` and the recursion of `Function::translate`
--     and `SBTSection::translate(Function*)` through them. There an instruction is the target of its
--     call; the recursion has fuel, one more than there are instructions is enough.
--   Sbt/Function: sbt/Function.cpp. Its child Sync has the copies between local and global registers
--     at a call and a return (`loadRegisters`, `storeRegisters`, with the flags of sbt/Function.h).
--     Blocks has the map of basic blocks and the split of sbt/BasicBlock.cpp, Jump `handleJump` of
--     sbt/Instruction.cpp, and Loop `translateInstrs`. There a guest instruction is its kind, its
--     target and the number of LLVM instructions that it emits. The loop is structural recursion on
--     the number of instructions. The proofs go by the set of addresses where blocks start: the map
--     of blocks is a function of that set, of the guest code and of where the translation stands
--     (Jump/Image).
--   Sbt/PrintfBreak: the pass of sbt/PrintfBreak.cpp, from a format string and the types of the
--     arguments to the calls that replace one call of `printf`.
-- Words are natural numbers with the wrap-around written out; 64-bit immediates of the decoder come
-- as patterns. A failed assertion and an LLVM error are values (`aborted`, `failed`, `none`).
--
-- The benchmark programs, mibench/ (Mibench.antt and the modules below it), on a 32-bit `long`.
--   Mibench/Isqrt: `usqrt` of automotive/basicmath/isqrt.c, its 32 iterations as structural recursion.
--   Mibench/Bitcount: the bit counters of automotive/bitcount, against the number of ones of
--     Mibench/Bitcount/Ones. `bit_count` has fuel 32, one for each digit; the recursive counters take
--     their depth as fuel, where 8 nybbles or 4 bytes are enough for a nonnegative `long`.
--   Mibench/Crc32: the table and `crc32buf` of telecomm/CRC32/crc_32.c; Mibench/Crc32/Shift is the
--     shift register that the table stands for.
--   Mibench/Adpcm: the coder and decoder of telecomm/adpcm/src/adpcm.c. The two loops carry the
--     variables of the source in `Loop`; the buffered half of a byte is an `Option`.
--
-- Tests/SbtTests, Tests/BranchTests, Tests/FloatTests, Tests/FunctionTests and
-- Tests/MibenchTests run the definitions and apply the theorems.
--
-- Not modelled: the handlers of calls and indirect jumps, the validation of floating point
-- conversions (`validateRangeBegin`), the code for local stacks, the shadow image, system calls, the
-- command line and the other benchmarks. The reasons are the emission of blocks and of code for the
-- host, input and output, and copies of other projects.
pub mod Prelude
pub mod Sbt
pub mod Mibench
pub mod Tests
