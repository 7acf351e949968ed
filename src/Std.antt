-- ===== src/Std.antt =====
-- The containers of the C++ standard library that the program keeps its state in.
pub mod Assoc
pub mod UnorderedSet
pub mod UnorderedMap
pub mod Lexicographic
pub mod Decimal
pub mod Entries
pub mod OrderedMap
pub mod Update
