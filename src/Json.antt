-- ===== src/Json.antt =====
-- JSON values as the variant of src/json/json_spirit_value.h, and how the program looks into them.
-- The reader and the writer of the library are parameters, and so are floating-point numbers.
pub mod Value
pub mod Object
pub mod Getters
