-- ===== src/Client.antt =====
-- client/psvemmc: the program on the PC, which asks the server for the partitions of a device and
-- writes one of them to a file.
pub mod State
pub mod Commands
pub mod Receive
pub mod Buffers
pub mod Exchange
pub mod Reads
pub mod Dump
pub mod Service
pub mod Served
pub mod Image
pub mod Partition
pub mod Mbr
pub mod Headers
pub mod Device
pub mod Link
pub mod Refusals
pub mod Connect
pub mod Closing
pub mod Program
pub mod Outside
