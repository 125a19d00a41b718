-- ===== src/Client.antt =====
-- pyronites/pyronites: the Python client.
pub mod Config
pub mod Http
pub mod Local
pub mod Table
