-- ===== src/Gateway/Methods.antt =====
-- The methods of `DbWriter`, one by one.
pub mod Bank
pub mod Others
