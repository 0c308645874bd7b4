-- ===== src/Lib.antt =====
-- Verification library for OmegaCatQt: read-only capture of network device state.
--
-- The program logs in to network devices over SSH, runs `show` commands and keeps each device's
-- output in a directory tree, one history per device and capture type. A saved session tree says
-- which devices there are, and a resolver says which credential to try on which of them. The parts
-- modelled here are those three, with the names of devices that the resolver goes by.
--
-- Capture, of internal/capture/store.go: `Put` is `put` (Capture/Store.antt), which finds the
-- device's directory by `Slug` (Capture/Slug.antt) and the type directory by the path that
-- filepath.Join makes of the capture type (Capture/Path.antt: a type with separators or ".." may
-- lead into another device's directory or out of the store). It makes the type directory, checks
-- and merges device.json, and works in the type directory by `put_type` (Capture/Put.antt): it
-- compares digests with the last stored version, chooses a name that `fileExists` does not find,
-- appends to the history and calls `pruneType` (Capture/Prune.antt). A store is an association
-- list from slugs to directories; a type directory is its history and its files, and one that is
-- not there is empty. Each call of the operating system that may fail has a field in PutOs,
-- PruneOs or StoreOs with what it answers, for os.Stat and os.Remove one for each name.
--
-- Also Capture, of internal/capture/diff.go: `myers` is `myers` (Capture/Myers.antt), and
-- `splitLines`, `editScript` and `DiffTextIgnoring` with its hunks are in Capture/Diff.antt. The
-- diagonal k = x - y of round d has number i with k = 2 i - d, the array `v` is a function that
-- `set` changes, and the trace is kept newest first. The rules that ignore lines are a test on
-- lines, which package regexp makes of them.
--
-- Credres, of internal/credres: `Classify` is `classify` (Credres/Outcome.antt), the order of
-- candidates is `rank` (Credres/Rank.antt), `Resolve` is `resolve` (Credres/Resolve.antt), `Report`
-- is `report` (Credres/Report.antt) and `Walk` is `walk` (Credres/Walk.antt). The resolver's
-- fields are the record State, which `Report` changes and `Resolve` reads. The binding store is the
-- interface `Bindings`, as BindingStore is in Go, with any state of its own. Vault.antt has the
-- credentials of internal/vault/vault.go. The binding store itself, internal/credres/binding.go,
-- is Credres/Shapes.antt (`shapesFor`, `betterCanonical`), Credres/Aliases.antt (the
-- records, and the loops of `merge` and `bind`), Credres/Binding.antt (`merge`, `bind`, `record`,
-- `forget` and `load`) and Credres/Binding/Store.antt (MemoryBindings,
-- which fills the interface `Bindings`, and FileBindings). A pointer to a record is a number, and
-- the heap is a function from numbers to records. Aliases are taken in the order of a list, where
-- Go ranges over a map in any order.
--
-- Normalize, of internal/normalize: Normalize.antt has the functions on names of normalize.go and
-- identity.go, and Normalize/Prompt.antt `HostnameFromPrompt` and `IsLoopback`. Their regular
-- expressions are written out as functions.
--
-- Sessions, of internal/sessions: Sessions/Node.antt has a node with its defaults, label and
-- address (session.go, and Key of tree.go), Sessions/Validate.antt the checks of a node,
-- Sessions/Tree.antt the tree and its editing operations, Sessions/Import.antt `Import`, and
-- Sessions/Edits.antt sequences of operations. An operation returns the tree and, if it refuses,
-- the error; the tree is what the pointer receiver holds then, so that an operation may change the
-- tree and still refuse.
--
-- Base, Text: shared names, lists measured by native numbers, and the functions of package
-- `strings`. Texts are sequences of bytes; case folding and white space are those of ASCII, and a
-- text of other letters is compared byte by byte. Go's maps are association lists or lists of keys,
-- with `lookup`, `insert` and `remove` as in Text/Assoc.antt. Go's int is the native natural number
-- where the code keeps it from being negative, and ℤ otherwise; neither wraps around, since no
-- arithmetic of these parts comes near 2 ^ 63.
--
-- Fuel: the search for a free file name has one round more than there are files, which is enough
-- because the names it tries differ; the search of `myers` has n + m + 1 rounds for versions of n
-- and m lines, since n + m edits lead from any version to any other; `itoa` has as many rounds as
-- the number and one; the loop over modes of a prompt has as many rounds as the line has bytes,
-- and each round shortens the line or is the last.
--
-- Parameters: the digest is crypto/sha256, the time stamp is time.Format, `net` and `ip` are
-- net/netip, and `dial` is the SSH dialer. Nothing is assumed of the digest, so the theorems compare
-- digests where the code does. Times are numbers.
--
-- Not modelled: locks and goroutines (each operation runs under its lock, so it is one step),
-- JSON and YAML (a history with a line that does not decode is one that cannot be read), writes
-- that stop halfway, a MkdirAll that fails and yet makes some directories, logging, the SSH stack, the C interface in capi/ and the Qt program in
-- app/. The template engine of internal/tfsmfire and the vault's encryption are third-party code or
-- the standard library's.
pub mod Base
pub mod Text
pub mod Vault
pub mod Normalize
pub mod Sessions
pub mod Credres
pub mod Capture
