-- ===== src/Chain.antt =====
-- Blocks and transactions: the classes of src/block.h and src/transaction.h. Numbers of type `double`
-- are of a parameter type `F`. A field that a constructor leaves indeterminate keeps what the
-- storage held, which is an argument of the functions that make such objects.
pub mod Block
pub mod Transaction
