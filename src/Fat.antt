-- ===== src/Fat.antt =====
-- lab03/sistop-famaf-so25lab3g34: the FAT file system.
mod Bits
mod Sample
mod Memory
pub mod Read
pub mod Truncate
pub mod Volume
pub mod Write
pub mod Table
mod Tests
pub mod FatFile
pub mod File
pub mod Filename
pub mod BigBrother
pub mod Create
pub mod Directory
pub mod Dates
pub mod Disk
pub mod Entry
