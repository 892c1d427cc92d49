-- ===== src/Lib.antt =====
-- RestoreSafe writes encrypted backups of directories, a set of part files per directory and run,
-- and restores, verifies and cleans them up. This library models the formats and the decisions of the
-- program in internal/, with the theorems that make them correct.
--
-- The parts and their files:
--   Base: numbers, lists, membership, sorting, big-endian words. Io: io.ReadFull on a reader with its
--     content to come. Text: decimal numbers and character sets.
--   Cryptox: internal/security/cryptox/crypto.go. Platform and Gcm are the standard library's
--     hashes, key derivations and AES-GCM as records of functions with their documented laws. Key
--     has ValidateArgon2Params, DeriveKEK, SealKey, OpenKey and DeriveSubkey; Stream has EncryptStream
--     (encrypt_stream) and DecryptStream (decrypt_stream), a round of the loop at a time.
--   Container: internal/format/container. Split is split.go, the writer of the part files over a disk
--     that may refuse any call and has one file for each path (open_next, close_current, write);
--     Trailer is trailer.go on int64 bit patterns; KeySet is keyset.go (add_slot, unlock, validate);
--     Header is header.go over a JSON codec (validate_header, encode_header, read_header); Set is
--     set.go (write_set, read_structure, decrypt_data), with the part count on int64.
--   Recovery: internal/security/recovery/recovery.go. Yubikey: the challenge data of
--     internal/security/yubikey/challenge.go. Naming: internal/format/naming/naming.go, where the
--     regular expressions are readers of their parts.
--   Catalog: internal/format/catalog/inventory.go and internal/workflow/job/selection.go, the
--     decisions on sets that were inspected. Plan.Retention: internal/workflow/plan/retention.go.
--   Manifest: internal/format/manifest/manifest.go. Path is ValidatePath, with path.Clean and path.Dir;
--     Validate is Manifest.Validate; Coding is Encode and Decode, where encoding/json on a line is a
--     record of functions (LineCodec) and strings.ToLower is a parameter.
--   Archive: internal/format/archive. Tar is what a tar.Reader finds; Dest is the destination, which may
--     refuse any call; Build is build.go (visit, add_file, read_file, build_tar) over the calls that
--     filepath.WalkDir makes, with what the file system answers; Restore is restore.go
--     (create_directories, extract_section, finish).
--   RestorePoint: internal/workflow/restorepoint (read_point, verify_own_data), over an interface of
--     the opened set (SetReader), with ReadManifest of internal/format/container/set.go on
--     the text of the manifest. Plan.Folders: folders.go and keys.go of internal/workflow/plan, with the
--     settings of internal/config/config.go. Unlock: internal/workflow/unlock/unlock.go, where the user
--     and the YubiKey are functions of the questions.
--   Flow: internal/gui/flow/machine.go and speed.go; Reach has the calls of the machine as events.
--   Examples: each theorem with hypotheses, at values that meet them.
--
-- A header hash binds a set's streams to its header, a key set in the header opens the master key, the
-- trailer locates the streams, and the writer cuts all of it into parts whose number the trailer
-- records. The catalog reads sets back, and retention decides on what it read.
--
-- Bounds and fuel. EncryptStream and DecryptStream use a byte of the source at least in every round
-- but the last, so the length of the source and one are enough; Write takes a byte at least in every
-- round; the inner loop of Generate takes five bits. Numbers are natural; where the code has an int64,
-- a uint64 or an int that can be negative, the field's comment says how it is represented.
--
-- Not modelled: random numbers are arguments; the clock, the directory listing, buffers that are
-- zeroed, error texts, log lines, and errors of the destination of a stream. The exclusion of
-- paths, the steps of a backup run, the health check, most of the configuration and the window are
-- not modelled.
pub mod Base
pub mod Io
pub mod Text
pub mod Cryptox
pub mod Recovery
pub mod Yubikey
pub mod Naming
pub mod Container
pub mod Catalog
pub mod Plan
pub mod Manifest
pub mod Archive
pub mod RestorePoint
pub mod Unlock
pub mod Flow
pub mod Examples
