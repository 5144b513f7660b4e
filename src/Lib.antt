-- ===== src/Lib.antt =====
-- Verification library of the operating-systems labs: the shell `mybash` (lab01), the named
-- semaphores of the xv6 kernel (lab02) and the FAT file system over FUSE (lab03).
--
-- Parts and files, with the code each is about:
--   Prelude                  the names, Boolean tests, list and byte lemmas that the parts share
--   MyBash.GQueue            GLib's queue, a parameter: operations, laws, and an instance on lists
--   MyBash.Run               the effects of the C code: failed asserts and a log of freed blocks
--   MyBash.StrExtra          lab01/sistop-famaf-so25lab1g34/strextra.c
--   MyBash.Scommand          command.c (same directory), the type `scommand`
--   MyBash.Pipeline          command.c, the type `pipeline`
--   MyBash.Parser            parser.h: the compiled parser, a parameter with its documented laws
--   MyBash.Parsing           parsing.c, the loop that builds a pipeline from the parser's answers
--   MyBash.Builtin           builtin.c: the commands that the shell runs itself
--   Xv6.Semaphore            lab02/sistop-famaf-so25lab2g34/kernel/semaphore.c, and of kernel/proc.c
--                            the loop of `wakeup`
--   Fat.Memory, Fat.Bits     arrays, machine numbers and masks of lab03
--   Fat.Table                lab03/sistop-famaf-so25lab3g34/fat_table.c and fat_table.h
--   Fat.Disk                 fat_util.c (same directory): transfers of all bytes of a buffer
--   Fat.Dates                fat_util.c: dates and times of directory entries
--   Fat.Entry                fat_file.h, fat_file.c: directory entries and their bytes
--   Fat.FatFile              fat_file.h, fat_file.c: files, and their entries in the parent's cluster
--   Fat.Create               fat_file.c: how files are made
--   Fat.Directory            fat_file.c: `fat_file_read_children`, the entries of a directory
--   Fat.File                 fat_file.c: how a file takes a new cluster
--   Fat.Read, Fat.Write      fat_file.c: `fat_file_pread` and `fat_file_pwrite`
--   Fat.Truncate             fat_file.c: `fat_file_truncate`; fat_fuse_ops.c: the loop that frees
--                            the clusters of a file
--   Fat.BigBrother           big_brother.c: the hidden directory of the access log
--   Fat.Volume               fat_volume.c: the boot sector, its checks and the table of a volume
--   Fat.Filename             fat_filename_util.c: names of directory entries and of paths
--
-- How the parts meet. `parse_pipeline` (MyBash.Parsing) reads symbols through the record of
-- MyBash.Parser and builds simple commands and a pipeline by the operations of MyBash.Scommand and
-- MyBash.Pipeline, which stand on a queue of MyBash.GQueue and join texts by `strmerge`. In
-- Xv6.Semaphore the sections of the calls that run under a semaphore's spin lock are functions on
-- the table, and Xv6.Semaphore.System interleaves the sections of any number of processes. Fat.File
-- allocates clusters by the operations of Fat.Table, whose writes go to a device that is a parameter.
-- Fat.Read, Fat.Write and Fat.Truncate walk along the chains of Fat.Table, transfer bytes by Fat.Disk
-- and write the entry of the file by Fat.FatFile; the contents of a file are the bytes of the clusters
-- of its chain, one after another. Fat.Volume makes the table that all of them work on.
--
-- State. A C string is a list of codes without 0, a structure is a record, `NULL` is `none`, an
-- `int` of a semaphore is an integer, and a failed `assert` is the failure of the `Run` monad, whose
-- log lists the blocks that are freed. Memory that `malloc` cannot give is left out. In lab03 an
-- access outside an array is `none`.
--
-- Bounds and fuel. A loop that takes elements off a queue runs on the queue's length; the parser's
-- loops run on fuel, and `parse_pipeline` is given the number of input symbols, which its theorem
-- shows to be enough. The search of a free cluster has one round for each entry of the table and
-- one more. A transfer runs on one call for each byte and one more, and the loops of
-- `fat_file_pread` and `fat_file_pwrite` on more fuel than bytes, since each round moves at least
-- one; the loops that free clusters run on more fuel than clusters. The theorems on chains take a
-- table whose numbers of clusters lie below the marks of bad clusters and ends, and where they need
-- it with an entry for each cluster, as `mounted` makes it of a volume with a 16-bit number of
-- sectors and a first table that is large enough. `NSEMAPHORE` is 64, an `int` and a `u32` have 32
-- bits and a `size_t` has 64.
--
-- Not modelled: the other files of xv6, which are the kernel of another project; the console
-- messages and what is left in `errno`, but where a test reads it; the running of pipelines by
-- `fork` and `exec`; of lab03 the tree of open files, the mapping of the table into memory, and the
-- FUSE interface but for the loop that frees a file.

pub mod Fat
pub mod MyBash
pub mod Prelude
pub mod Xv6
