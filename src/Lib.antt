-- ===== src/Lib.antt =====
-- saQut, a compiler and virtual machine for the language of the same name (C++, under src/).
--
-- The program reads source text into tokens, an AST and symbols, checks types, optimizes, generates
-- instructions, and runs them on a virtual machine with a garbage collector or through a JIT. This
-- library models the parts below, and states what they promise to the others.
--
--   Prelude       names that the modules share; integers (Prelude/Int) stand for the machine's signed
--                 words, and a routine that depends on a range takes the range as a hypothesis.
--   DecimalCore   src/data/decimal_core.hpp: `addOv`, `negOv`, `mulOv`, `scale10`, `divScaled`,
--                 `compareScaled`, on which every backend's decimals rest. A false return is `none`.
--   Decimal       src/core/decimal.hpp, `DecimalValue`: `normalize`, `add`, `sub`, `mul`, `div`, `mod`,
--                 `truncate`; and the opcode CAST_DECIMAL_TO_INT of src/vm/interpreter.cpp.
--   Gc            src/vm/object.hpp, src/vm/object.cpp and `Interpreter::maybeCollect`: the tricolour
--                 mark-sweep collector. The heap is the list of its objects, a pointer an address;
--                 a thread of execution appears as the steps that it takes between two safepoints
--                 (Gc/Runs): allocation, FIELD_SET and ARRAY_SET, and changes of the roots.
--   Types         src/core/type.hpp: the types that the checker compares, prints and reads.
--   Ir            src/ir/instruction.hpp: the opcode table and the instruction.
--   Cfg           src/ir/ir_cfg.hpp and src/ir/ir_cfg.cpp: the control flow graph of a function, and
--                 `linearize`, which gives the virtual machine its list of instructions back.
--   Utf8          src/core/utf8.cpp: code points of a text; a view from an offset is the rest of the list.
--   ShadowStack   src/vm/shadow_stack.hpp: the references of compiled code, roots of the collector.
--   Scope         src/symbol/scope.hpp: names and the chain of scopes.
--   Folding       src/opt/constant_folding.hpp on expressions, beside the int operators of
--                 src/vm/interpreter.cpp and the code that src/ir/ir_generator.cpp makes of operators.
--   Vm            src/vm/value.hpp, src/vm/call_frame.hpp, src/vm/interpreter.hpp and
--                 src/vm/interpreter.cpp: every opcode, the handling of a pending error, and the loop of
--                 `runUntilEvent` with its budget, breakpoints and steps. An opcode has a form
--                 (Vm/Forms): which operands it reads and what it computes. Vm/Platform holds what the
--                 machine takes from elsewhere: floating point and its texts, host calls, file names, and
--                 the safepoint, which Gc models by itself. An index out of the range of a vector of the
--                 interpreter, which C++ leaves undefined, is an outcome of its own.
--   Codegen       src/ir/ir_generator.cpp, `generateExpression`, on expressions of the type int that do
--                 not assign: literals, names, unary and binary operators, && and ||. Codegen/Compile is
--                 the same code with its jump targets known from the start, and the other files run it
--                 on the machine of Vm.
--   Position      src/lsp/position.hpp: lines of a document, by an index and by a scan, and columns in
--                 UTF-16 code units and in bytes. Its loops run on the number of bytes; a step takes one
--                 at least.
--
-- The loops of the source are structural recursion. `normalize` runs on 20 rounds, which is enough
-- for the 19 digits of an int64_t. The loop of `runUntilEvent` runs on fuel; with a budget, twice the
-- budget and the height of the call stack are enough, since a round spends of the budget or leaves a
-- frame. The loops of Utf8 run on the number of bytes, and every code point takes one at least. The
-- loop of `divScaled` runs on its precision, `drainGrey` on the length of the list, and the loop over
-- the blocks of a graph on their number, as in the source.
--
-- The arithmetic on the exponents of decimals wraps around at 32 bits, as the machine does where C++ leaves
-- the overflow of an int32_t undefined; the theorems take the ranges in which it does not as hypotheses.
-- Block indices are integers without wrap-around. A negative threshold of the collector is taken as 0, which
-- its guard treats alike. The interpreter reads all operands of an instruction before it
-- tests one of them, a negative count of fields or elements is taken as 0, and a reference that is dangling
-- or of another kind of object is an outcome of its own. Source locations and the type of a global, which
-- the interpreter does not compute with, are left at their defaults by Codegen. Not modelled: floating point
-- and the text of decimals, the profiling hooks, the names of fields and slots, JSON and terminal output,
-- and the copies of other projects (nlohmann JSON and MIR). The lexer, parser, type checker, statements and
-- the other expressions of the generator, the walk of the folding pass over statements, and the servers are
-- not part of the library.
pub mod Prelude
pub mod DecimalCore
pub mod Decimal
pub mod Gc
pub mod Types
pub mod Ir
pub mod Cfg
pub mod Utf8
pub mod ShadowStack
pub mod Scope
pub mod Folding
pub mod Vm
pub mod Codegen
pub mod Position
