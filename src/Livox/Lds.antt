-- ===== src/Livox/Lds.antt =====
-- lds.h and lds.cpp: the data source, 32 devices with their queues behind the device table, and the
-- two semaphores that wake the publishing threads.
pub mod Defs
pub mod Others
pub mod Push
pub mod Frame
