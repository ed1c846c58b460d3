-- ===== src/Db.antt =====
-- The tables that the catalog code reads and writes (db/init.sql, backend/migrations/*.sql), and
-- transactions (backend/db.js). One value of `Db` is the state of the whole database; a query is a
-- function of it, and `now` is what NOW() answers in the running transaction.
pub mod Rows
pub mod Tx
pub mod Find
pub mod Laws
