-- ===== src/Script.antt =====
-- haret-j820gnu/src/script.cpp, the script language of the boot loader HaRET.
pub mod Text
pub mod Number
pub mod Vars
pub mod Expression
pub mod Total
pub mod Chain
pub mod Keywords
mod Tests
