-- ===== src/Lib.antt =====
-- A verification library for parts of this repository: the NixOS updater (src/ogygia-updated), the
-- keeper of Clevis disk blobs (src/ogygia-clevis), the Bloom filters of the binary-cache daemon
-- (src/ogygia-irisd/src/bloom), the Nebula daemon for Macs (src/ogygia-macos-nebulad), the paths and
-- archives of the Nix evaluator (src/ogygia-nix-eval), and narinfo files (src/ogygia-nixutils).
--
-- Base: shared names. Text is a list of code points, numbers are the native ℕ, Base/Int.antt has
-- signed integers; machine widths are written out where the code wraps.
--
-- Updated models src/ogygia-updated/src. Config, Canary and Outcome are the data of config.rs,
-- canary.rs and engine.rs. Repo is repo.rs over `Git`, the answers of libgit2 on the clone after a
-- fetch. World has the state that a cycle changes (the revision files of the running system, of the
-- profile and of what the boot loader starts, the canary record, the commit at which the clone is
-- clean), the commands of the `System` trait of system.rs, and the monad of steps,
-- which keeps the commands that were run. Effects are the single steps, Policy the tests that touch
-- nothing, Engine update_to_tip, activate and start_canary, Cycle scheduled and run. Daemon is the
-- loop of main.rs over requests of control.rs; it calls Cycle.run.
--
-- Clevis models src/ogygia-clevis/src. Config and Decision are config.rs and decision.rs, Blob is
-- blob.rs over `Codec` (base64, JSON and SHA-256), Probe is probe.rs over the HTTP answers, Disk has
-- files and actions that keep each state they go through, Swap is swap.rs on it, Main is main.rs and
-- clevis.rs, which calls all of them. Blob.bound_pins reads nested headers on fuel, one more than
-- the length of the blob: each level is a shorter text.
--
-- Irisd models src/ogygia-irisd/src/bloom. Wire is wire.rs over bincode and SipHash, Local is
-- local.rs over fastbloom with the filters in a store, since the slot that is read and the slot that
-- is written may share one, Peers is peers.rs: an entry's freshness, its fetches, its eviction.
-- What a task does under one lock is one operation, which reads the clock once.
--
-- Nebulad models src/ogygia-macos-nebulad/src. Settings is settings.rs, Prefs is prefs.rs over
-- CFPreferences, Protocol is protocol.rs, Render and Report are render.rs and report.rs. Daemon has an
-- update and the answer to a request of daemon.rs; what nix, nebula-cert and the file system do in
-- one update is the record `Outside`. Supervisor is the loop of supervisor.rs as a function from an
-- event to where the loop next waits; its Current has it beside a daemon that writes configs.
--
-- Eval models path.rs and nar.rs of src/ogygia-nix-eval/src, with text as UTF-8 bytes. canon_path
-- calls itself behind each prefix, on fuel, the length of the path; dump reads a tree through the
-- Accessor trait of accessor.rs on fuel, at least the depth of the tree, into a `Writer`, which may
-- fail at each write. Json has the values of
-- serde_json, which Clevis and Nebulad read.
--
-- Nixutils models narinfo.rs, types.rs and signature.rs of src/ogygia-nixutils/src over `Encoding`,
-- base64 or hexadecimal. The fields of a narinfo are a list, the last one first, where the code has
-- a map, so that the last value of a key is found first.
--
-- Not modelled: the processes, sockets, threads and logs of these daemons; the serde encodings of
-- configurations and of the canary record; floating-point sizes and ratios of the Bloom filters;
-- the key, the socket and the start of the Nebula daemon; the rest of src/ogygia-irisd,
-- src/ogygia-nix-eval and src/ogygia-nixutils, and src/ogygia, src/ogygia-dashboard and
-- src/ogygia-hostinfod.
pub mod Base
pub mod Updated
pub mod Json
pub mod Clevis
pub mod Irisd
pub mod Eval
pub mod Nebulad
pub mod Nixutils
