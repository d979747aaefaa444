-- ===== src/Lib.antt =====
-- A verification library for the virtual machine of AtomixJS.
--
-- The program. atomixc (TypeScript) compiles JavaScript to bytecode; the machine in atomix/core (C)
-- loads and runs it. A run is a loop that reads an instruction of the current module and calls its
-- handler from a table. Handlers work on a stack of 254 tagged values; names live in scopes,
-- properties in objects, both on the same dictionaries. Functions, accessors and native functions
-- call back into the loop through `vm_exec_function` and `api_call_function`.
--
-- The files and the code that they model, with the function names of the source kept (types in
-- UpperCamelCase: JSValue is JsValue).
--   Value: atomix/core/value.impl.h and the tests of value.c.
--   Text: the conversions of value.c, and `value_is_array`.
--   Dict, Dict/Delete: atomix/core/dict.c. A chain is a list of nodes; a deletion keeps the pointer
--     walk of the source as positions in that list.
--   Format, Bundle: atomix/core/format.c, the string table and the search of a bundle, and
--     bundle_get_module with the native modules that atomix/core/api.c registers.
--   Instruction: atomix/core/instruction.impl.h.
--   Vm, Vm/Exec: atomix/core/vm.impl.h, the structs on the heap, PANIC, and the steps that handlers
--     share. A handler takes the machine and returns a value with the new machine (`ret`), or ends
--     by a PANIC (`panicked`), in undefined behaviour (`crashed`) or without fuel (`out_of_fuel`).
--     The heap has one partial map from addresses per kind of struct; two structs of one kind at the
--     same address are one struct, so aliasing is that of the source.
--   Scope, Object, Function, Symbol: atomix/core/scope.c, object.c, function.c and symbol.c.
--   Execution: the handlers of atomix/core/execution.c by groups (Stack, Arith, Bits, Compare,
--     Locals, Typeof, Objects), the calls (Calls, with atomix/core/api.c) and the table with the
--     loops (Run).
--   Core: atomix/modules/core/core.c. Print, Modules, Objects and Arrays hold its native functions,
--     Table their numbers, which stand for C's function pointers, and Init core_init. What printf
--     writes is a list of texts in the machine.
--   Loader: atomix/core/loader.c from the buffer on. Bytes holds the READ_ macros, Code, Strings and
--     Files the sections and the two formats; Write holds what atomixc/src/format and
--     atomixc/src/binary.ts put into a file, as a function of the strings and the instructions.
--   Compiler: atomixc/src/pipe.ts. Syntax holds the nodes of Babel's tree with the fields that pipe.ts
--     reads, Sections the classes of atomixc/src/format that collect the strings and the
--     instructions, Emit what the walk does to them (it returns the sections or throws), Pipe the
--     walk itself, one function per entry of the table `pipe`, and Write the writeTo functions. The
--     source keeps its operators as texts; here they are data types.
--   Entry: vm_init and bind_modules, and main of atomix/debug and atomix/release from the buffer on.
--   Prelude: numbers of 32 and 64 bits, lists and results. Tests and its children: concrete runs.
-- The other files hold proofs: Dict/Lookup, Dict/Update and Dict/Remove on dictionaries,
-- Format/Search and Bundle/Modules on the search, Scope/Chain on chains of scopes, Object/Prototypes and Core/Inherit on
-- prototypes, Core/Imports on the hash of an import, Execution/Arith/Effect, Execution/Stack/View,
-- Execution/Compare/Order and Execution/Compare/Equality on operators, Execution/Straight on code
-- without jumps or calls, Execution/Steps on code with jumps, Loader/Trip on files that atomixc
-- writes, Loader/Safe on any file. Compiler/Meaning gives each node of a tree a relation of the machines
-- before and behind it, with no code in it: an operator is the handler of the machine for it, and no table
-- of the compiler stands there; Compiler/Implements states that the emitted instructions
-- follow that relation at any place of a module, and its child modules and Compiler/Correct prove it
-- node by node. The meaning has no bodies of functions and no `return`. Compiler/Accepts is a test of the
-- tree, and its child modules prove that it tells which trees the walk compiles. Three predicates of runs carry them: Ends and Keeps
-- (Vm/Keeps) for invariants of runs that return, Returns (Vm/Returns) for their values, and Succeeds
-- (Vm/Succeeds) for runs that do return. The Keeps files prove that operations on the heap leave every
-- invariant of the registers and the stack alone; Execution/Bounds, Core/Bounds and Entry/Bounds build
-- the bounds of the whole machine on them.
--
-- Numbers and bounds. An int32_t is a number below 2^32 and wraps, also where C leaves the overflow of
-- a signed sum, difference, product or opposite undefined; a size_t wraps at 2^64, the stack counter
-- below zero too; a double
-- is its 64-bit pattern, with the processor's operations as parameters. Reads and writes outside the
-- stack array are undefined behaviour and end the machine as `crashed`, and so do INT_MIN % -1,
-- a shift by a count outside 0 to 31 and
-- the use of a NULL that the allocator returned. Storing an int32_t writes zeros over the upper half
-- of the union. A character of a string that atomixc writes is one byte; writeString throws for a code
-- above 255. Fuel bounds the depth of calls together with the rounds of each loop, the walks along
-- scopes and prototypes, and the rounds of the search, each of which the source can run for ever.
-- For the walks the machine takes one step more than there were allocations; the theorems on scopes
-- and on the search state how much is enough.
--
-- Not modelled. The collector atomix/bdwgc (a third-party library; the allocator is a parameter), the
-- input of files in atomix/core/loader.c and the arguments of the process (I/O), the table of init
-- functions that the build generates (a parameter), and of the compiler atomixc the parser and the
-- traversal (@babel/parser and @babel/traverse) with the rewrites of atomixc/src/transform.ts that run
-- in it, the hash of a path, the readers of the formats, and the tools of the command line. The tree
-- that pipe.ts walks shares no nodes here, and what the language does with numbers (the remainder by
-- one, the shift to 32 bits, the text of an index) is a parameter. The magic bytes, the version and the section places of a module, which nothing reads
-- after loading, are not kept.
pub mod Prelude
pub mod Value
pub mod Bundle
pub mod Compiler
pub mod Core
pub mod Dict
pub mod Entry
pub mod Format
pub mod Instruction
pub mod Loader
pub mod Vm
pub mod Execution
pub mod Scope
pub mod Object
pub mod Symbol
pub mod Tests
pub mod Text
pub mod Function
