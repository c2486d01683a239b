-- ===== src/Lib.antt =====
-- Ludus deploys cyber ranges on Proxmox: a server (ludus-api) keeps users, groups and ranges in
-- PocketBase and runs Ansible and Packer, and a client (ludus-client) talks to it. This library models
-- the parts of the program that decide something, and proves what makes them right.
--
-- Parts, and how they correspond to the code:
-- - Quota: ludus-api/quota.go. One function for each function of the file, under its name. `World` is
--   what they ask of PocketBase, of the disk and of the YAML parser; errors are values of `Result`.
-- - Allocation: ludus-api/database.go, the searches for a free range number and user number.
-- - RangeAccess: ludus-api/utils.go, `HasRangeAccess`. The state is what the request keeps.
-- - AccessPlaybook: ludus-api/range_access.go, `RunAccessControlPlaybook`.
-- - Groups: ludus-api/api_group_management.go, `AddRangesToGroup` and `RemoveRangesFromGroup`, with
--   ludus-api/groups.go and the calls of ludus-api/proxmox.go that set access lists. A round of a
--   handler uses RangeAccess and AccessPlaybook as the source does; the state holds the record of the
--   group, its access lists, and what RangeAccess keeps in the request.
-- - Commands: ludus-api/commandmanager/commandmanager.go. A function of the manager is a step under its
--   lock, or two around the wait for a process, and a run is a list of the steps of all threads.
-- - BlueprintAccess: ludus-api/blueprint_access.go, one function for each function of the file.
-- - Archive: ludus-api/archive_extract.go, the paths that the entries of an archive are written to, with
--   `filepath.Clean` as Go documents it, and in Archive.Zip the loop of `ExtractZipFile`.
-- - Network: ludus-api/file_operations.go, `applyBlockInFile` and `applyBlockInFileAtPath`, and the block
--   of a range in /etc/network/interfaces that ludus-api/network.go makes and takes out.
-- - Sources: ludus-api/source_sync.go, `runSourceInstall`. Sources itself has what the walk of a
--   source gives and the names of its artifacts, Requirements what a blueprint refers to, Selection the
--   selection that is applied, Rows the blueprint rows, Install the ledger of claims, Galaxy the
--   requirements of the selected blueprints (ludus-api/blueprint_resolver.go), and Sync puts them
--   together. Fetch is `fetchAndWalkSource`, with the directories of an upload, Walk is
--   ludus-api/source_walker.go, and Versions the version states of ludus-api/source_catalog.go.
-- - Picker: ludus-client/internal/sourcepicker (model.go, imply.go, update.go, picker.go and two
--   functions of view.go), with the catalog of ludus-api/dto. `update` is the event loop, and `run_from`
--   feeds it messages until it quits.
-- - Prelude: tests on numbers, lists, 64-bit integers, results and texts that the parts share.
--
-- Bounds and fuel: Go's int is a number of 64 bits whose sums wrap around (Prelude.Int64). The search
-- of Allocation has one round more than there are numbers, which is always enough. Cursors of the
-- picker, range numbers, PIDs and times are natural numbers: no step makes one of them negative.
--
-- Choices: labels that the source keeps in strings (the source of a quota, states, scopes, actions of
-- dependencies, error texts of the handlers) are constructors. A Go map is a list of entries or a record
-- with one field for each key, a set is a list that is asked for membership only, and the order of a loop
-- over a map is that of the list. Lower case is that of ASCII. A Go panic for an index out of range is
-- a step that leaves the state. What PocketBase, Proxmox, Ansible, the file system, the YAML parser,
-- the operating system's processes and the text input of Bubbles do is a parameter.
--
-- Not modelled: the HTTP handlers around these parts, the git client, the runs of ansible-galaxy, the
-- catalog, tar archives, range configs, migrations, the rendering of the picker, the flags of the
-- client and the installer of the server. Most of that is input and output.
pub mod Prelude
pub mod AccessPlaybook
pub mod Allocation
pub mod Archive
pub mod BlueprintAccess
pub mod Commands
pub mod Groups
pub mod Network
pub mod Picker
pub mod Quota
pub mod RangeAccess
pub mod Sources
