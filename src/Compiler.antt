-- ===== src/Compiler.antt =====
-- atomixc, the compiler from JavaScript to bytecode: the tree that it reads (Syntax), the sections of
-- a module that it fills (Sections, Emit), the walk over the tree (Pipe) and the file (Write); what the
-- nodes mean on the machine (Meaning), how the walk grows the sections (Growth), and what the emitted
-- code does (Implements, Correct), and which trees compile (Accepts).
pub mod Syntax
pub mod Sections
pub mod Emit
pub mod Pipe
pub mod Meaning
pub mod Growth
pub mod Implements
pub mod Correct
pub mod Write
pub mod Accepts
