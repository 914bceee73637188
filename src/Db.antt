-- ===== src/Db.antt =====
-- `CMysqlDb` of src/mysqldb/mysqldb.cpp: the statements that it sends, and what it returns for the
-- outcome of each. The MySQL++ library and the server are parameters: the outcome of a statement
-- after those that were carried out before.
pub mod Statements
pub mod Session
pub mod Insert
pub mod Laws
pub mod Grows
