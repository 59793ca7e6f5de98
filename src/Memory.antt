-- ===== src/Memory.antt =====
-- nemu/src/memory/paddr.c, nemu/src/device/io and the headers beside them: the guest's memory, the
-- devices' memory and the maps between addresses and the two. `PMEM_BASE` is a parameter.
pub mod IoMap
pub mod Paddr
