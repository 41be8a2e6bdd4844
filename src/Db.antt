-- ===== src/Db.antt =====
-- atb_adapter/db_helper.h and db_helper.cpp: the database helper. The connection pool and the mysql
-- client are not part of the program: `Mysql` is what the helper asks of them.
pub mod Sql
pub mod Query
pub mod Account
pub mod Camera
pub mod Lists
pub mod Calls
pub mod Balance
pub mod Login
pub mod Devices
pub mod Fixture
mod Tests
