-- ===== src/Lib.antt =====
-- A verification library for the C programs of minidarwin, the packages that are built around
-- Apple's sources. Two programs are modelled: providers of the kernel (the trust cache, which
-- decides what code may run, AES, random numbers), and mdpkg, which installs flat packages into a
-- root. They share nothing but this library's helpers.
--
-- Prelude: the library's names, Boolean tests on numbers, lists measured by native numbers.
--
-- Kernel, pkgs/xnu/support:
--   Memory: the bytes of the kernel's memory by address, `le32` and `memcmp` on them.
--   TrustCache: trust-cache.c and TrustCache/API.h. A runtime is the two static slots and the
--   chain of loadable caches, as lists of nodes with their addresses; `load_module`,
--   `check_runtime_for_uuid` and `validate` stand in TrustCache itself, the queries and the
--   accessors of a token in TrustCache/Tokens. A chain of nodes is a list, since nodes are linked
--   once.
--   Aes: kernel-aes.c. A buffer is a list of blocks; LibreSSL's block cipher is the argument
--   `Cipher`. In TrustCache, the loop over a module's entries recurses on the number of entries.
--   The binary search has the length of its range as fuel, which each step makes smaller.
--   Random: the rejection sampling of kernel-rng.c and of pkgs/libsystem/runtime-rng.c. The
--   answers of the generator are a list; the loop goes down this list, and waits at its end.
--   Drbg: kernel-drbg.c. The digest, its HMAC and the limits of corecrypto's headers are the
--   argument `Digest`. The loop of `generate` has the number of bytes as fuel: each turn gives one.
--
-- Installer, pkgs/installer:
--   Result: `die` ends the program, so a function that may call it returns a `Result`.
--   Paths, Number and Entries: util.c. A C string is the list of its bytes, without the NUL.
--   `strtoull` is written out for the bases 8, 10 and 16; `qsort` and `bsearch` are a stable sort
--   and a search.
--   CpioHeader and Cpio: cpio.c. The archive is a list of bytes. The loop over the records has the number of
--   bytes as fuel: every record is longer than nothing. The decompression of a gzip stream is
--   zlib's and is an argument.
--   Tree: what the file system holds below a directory, and `lstat` on it.
--   Transaction: the offline install of install.c, as a machine whose state is what stands at ROOT
--   and in ROOT.mdpkg-transaction, and the place of the process in `install_package` and
--   `publish`. Its events are the calls that change the disk, a call of `die` with the hook that
--   is set then, and the end of the process at any time. The permissions of ROOT and its parent
--   are not in the state: where `lock_and_recover` stops because of them, the machine has a call
--   of `die`. The lock lets one process run at a time, so one machine is enough. What hooks and
--   payloads write is any tree at ROOT.mdpkg-transaction/new; the runner keeps scripts out of
--   ROOT. `remove_tree` leaves anything behind until its last rmdir. Not modelled: a loss of power
--   that undoes what has not been flushed; the hooks of a component.
--   Resolve: `resolve_target_path` of install.c. The path that is done is the list of its names,
--   the path that is left a string. The fuel is the length of the path plus, for each of the 32
--   links that may be followed, PATH_MAX and that length: a turn without a link makes what is
--   left shorter.
--   Placement: `place_payload`, `preflight` and `check_payload_symlinks` of install.c on such trees.
--   Whether a runner is given, and whether scripts are skipped, are two Boolean arguments.
--   Xml: xml.c over libxml2. A node has its attributes, its children and the sibling that follows,
--   and `null` is NULL; the reading of a file and the text of a node are the argument `Libxml`.
--   Decoding: `decoded_account`, `inflate_limited`, `digest` and `hex_encode` of util.c. zlib is the
--   argument `Zlib`, whose documented behaviour is `IsZlib`; the fuel of the loop is the input, the
--   limit and one, since every call that returns Z_OK reads or writes something.
--   Xar: xar.c. The file is its bytes, and the total of decoded bytes is passed on.
--   Package: package.c and the records of mdpkg.h. References, Loading and Distribution read the
--   document and the components, Selection settles the choices, and Opening has `package_load` and
--   `package_resolve`. QuickJS, with installer-js.c around it, is the argument `Engine`, and its
--   compiler the argument `Compile`. The labels of messages and the text of an error are left out.
--   Staging: `stage_copy` and `restore_base_directories` of install.c on trees with metadata, with
--   paths as lists of names. An object has both its times, with nanoseconds; the source records a
--   base directory's modification time in seconds, and sets both times to that. Clones and copies
--   give the same file. What the reading of an object does to its access time is left out.
--   Extraction: `path_parents` of util.c, `extract`, `journal_add` and `journal_undo` of install.c
--   on the same trees. A failing run is a result too, with the tree and the journal that it leaves:
--   it fails between two calls, not within the writing of a file. A system call fails where a name is taken or a directory is missing; the
--   time that a directory gets when an entry is added to it is left out, since the source sets it
--   where it matters.
--   Receipts: `snapshot_tree` of receipts.c on the trees of the staged copy, in Receipts/Snapshot, and
--   `script_changes`, which compares two snapshots. The digest of a file is an argument. The
--   property lists are not modelled.
--   Tests: concrete runs.
--
-- Numbers are natural numbers. Where the source's types wrap around, the model does too (the
-- checksum of a record, the negation of `strtoull`). Memory is taken to be available: `xcalloc`
-- ends the program otherwise. Not modelled are the parts that only call other libraries (the
-- objects that scripts in JavaScript see, tables of digests), plain input and output, the programs in C++ (pkgs/launchd,
-- pkgs/open), and the copy of FreeBSD's sbuf in pkgs/compat.
pub mod Prelude
pub mod Kernel
pub mod Installer
