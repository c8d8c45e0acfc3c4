-- ===== src/Topology.antt =====
-- source/lunar_topology.h: the cpus and their LLCs, read from sysfs and written into the BPF object.
pub mod Sysfs
pub mod Cpulist
pub mod Read
pub mod Setup
