-- ===== src/Zip/Read.antt =====
-- `read_zip` on an encoded archive, one round at a time and as a whole.
pub mod Step
pub mod Loaded
pub mod Loop
pub mod Files
