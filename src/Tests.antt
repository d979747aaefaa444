-- ===== src/Tests.antt =====
-- Concrete dictionaries, bundles, files, scopes and machines, runs of the operations on them, and an
-- instance of each theorem that has hypotheses.
mod Bundles
mod Compilers
mod Cores
mod Dictionaries
mod Files
mod Loops
mod Machines
mod Operators
mod Scopes
