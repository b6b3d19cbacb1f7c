-- ===== src/Lib.antt =====
-- A model of tboot, a boot loader that runs as the init program of a small Linux system, finds entries
-- of the Boot Loader Specification on disks, and starts one of them by kexec; of tboot-bless-boot,
-- which runs in the system that was booted and marks the entry good or bad; and of
-- tboot-nixos-install, which writes the entries of a NixOS system.
--
-- The parts and their files:
--   Bls         tboot/src/bls.rs: the name and the counters in the file name of an entry.
--   BootLoader  tboot-loader/src/boot_loader/: `Entry`, `Arch`, `Conf`, `Disk` and `BlsBootLoader` are
--               BlsEntry, EfiArch, LoaderConf, Disk and BlsBootLoader of disk.rs, `Loader` is Loader
--               of mod.rs.
--   FsType      tboot-loader/src/fs.rs: detect_fs_type.
--   Dev         tboot/src/dev.rs: Uevent::parse, which reads the events of the kernel, and parse_uevent;
--               `Devices` is the scan, the loop over the events and the files below /dev that they make,
--               `Devices/Settle` is wait_for_settle.
--   Config      tboot/src/config.rs: Config::from_args.
--   Cmd         tboot-loader/src/cmd.rs: parse_input and print_help.
--   Main        tboot-loader/src/main.rs: `Autoboot` is the first loop of prepare_boot, `Commands` is
--               handle_commands, `Main` joins them to prepare_boot.
--   Shell       tboot-loader/src/shell.rs: run_shell, and the session of the two threads.
--   Kexec       tboot-loader/src/kexec.rs: kexec_load.
--   Keys        tboot-loader/src/keys.rs: load_verification_key.
--   System      tboot/src/system.rs: kernel_logs; `Setup` is setup_system.
--   NixosInstall  tboot-nixos-install/src/main.rs.
--   BlessBoot   tboot-bless-boot/src/main.rs.
--   Generator   tboot-bless-boot-generator/src/main.rs.
--   Prelude, Result, Text, FilePath and Fs hold what they share: lists, results, and the operations of
--               Rust's str, Path and std::fs that the program uses.
--
-- How they interact. prepare_boot asks a Loader for its devices. The Loader calls the boot loader
-- behind it (setup, probe, teardown) when its state asks for it. Each device has entries, which
-- BlsEntry::parse_entry_conf reads from files whose names Bls::parse_entry_filename takes apart.
-- The selected entry counts a boot by renaming its file, and writes its name on the kernel command
-- line. The generator looks for that option to link in tboot-bless-boot, which finds the name
-- there, finds the file again, and renames it once more. The files that tboot-nixos-install writes
-- are those that parse_entry_conf and parse_loader_conf read.
--
-- How state is written. An operation takes the state and returns its result with the new state. The
-- boot loader behind a Loader and the machine below it are a parameter, `Platform`, with any state;
-- its setup may fail; `disk_loader` is the disk loader as such a platform. kexec and the busybox
-- shell are another, `Host`. The system calls of `Kexec` and `Keys` are arguments, with the
-- kernel's keys as a state of any type. Messages between threads are lists in the order in which
-- they are received; a `timeout` among them is a tick with no message. In a session the shell and
-- the server take turns: each message of one is awaited by the other. The file system is a list of
-- paths with their nodes; permissions and failing devices are not in it, and symbolic links only in
-- the trees of /dev and of units, where a file is a link or a device. A disk is read through
-- `Reader`, which may fail at any call. What the disk loader asks of the kernel and of the crate
-- gpt is `Kernel`: mounts, the links below /sys, the bytes of devices and the partition tables. The
-- installer takes the program that signs files, and the crates glob, bootspec and serde_json. A
-- panic of the setup or of the installer is the result `none`.
--
-- Numbers are natural numbers; where the code reads a u8, a u32 or a usize (of 64 bits) the bound is
-- part of the parser, and checked arithmetic keeps its bound. Loops are recursion over lists; the only
-- fuel is in trim_start_matches, with the length of the text, of which each round takes a part.
--
-- Not modelled: the terminal that is set up at the start, the main function of tboot-loader, and
-- what logs. What is printed is kept only as which message it is. File names are taken to be UTF-8.
pub mod Prelude
pub mod Result
pub mod Text
pub mod FilePath
pub mod Fs
pub mod Bls
pub mod BootLoader
pub mod FsType
pub mod Dev
pub mod Config
pub mod Cmd
pub mod Main
pub mod Shell
pub mod Kexec
pub mod Keys
pub mod System
pub mod NixosInstall
pub mod BlessBoot
pub mod Generator
