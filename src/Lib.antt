-- ===== src/Lib.antt =====
-- zonegit: a content-addressed, versioned store of DNS zones (Go).
--
-- A zone is a Merkle tree of labels: each node lists subtrees (by label) and leaves (by record type),
-- and names them by the SHA-256 hash of their bytes. Nodes are immutable objects in a store; refs,
-- moved by compare-and-set, name commits, and a commit names a root. An edit writes new nodes along
-- one path and shares the rest; a merge walks three trees in lockstep and shares what is identical.
--
-- Files:
--   Base        byte strings and their order, maps, sorting, decimal text, results and outcomes.
--   Store       pkg/store: Store/Hash is hash.go (IsZero, String, ParseHash), Store/MemStore is
--               memstore/memstore.go (PutObject, GetObject, GetRef, CASRef, DeleteRef, ListRefs, the
--               reflog). An operation takes the store and returns the new one; the lock of the Go
--               code makes each method one step.
--   Object      pkg/object: Object.antt is object.go (HashOf, Encode, Verify), Object/Tree is tree.go
--               (the order of entries, Get, and in Codec Encode and DecodeTree), Object/TreeOps is
--               treeops.go (LoadTree, PutTree, WalkTree, NodeExists, UpdateTree, setEntry), with
--               WalkAllLeaves in Object/TreeOps/Leaves.
--               Object/Commit is commit.go (Encode, DecodeCommit).
--   Merge       pkg/merge/merge.go: resolveLeaf, minKey, mergeTreesAt, MergeTrees.
--   Refs        pkg/refs/refs.go: CanonZone, RegisterZone, ReadHEAD, SetHEAD, branches and tags;
--               Refs/Resolve is Resolve and ResolveInZone, Refs/Migrate is MigrateLegacyV03.
--   Zone        pkg/zone: EncodeRRset, DecodeRRset (blob.go), BumpSOASerial (soa.go), and in
--               Zone/Import ImportZonefile (zonefile.go). github.com/miekg/dns is the record `Dns`.
--   History     pkg/history: Diff in History/Diff, and in History.antt Log, WalkAt and Blame.
--   Repo        pkg/repo: Repo.antt has MergeBase, isAncestor and ancestorSet over the graph of
--               commits (merge.go); Repo/Staging is the handle with Open, Init, SwitchZone, Set and
--               Delete, Repo/Committing is Commit with maybeBumpSOA, Repo/Reads the read methods and
--               Import (repo.go); Repo/Integrate is Merge, Revert and ResetHard (merge.go). A commit
--               takes edits from the staging area to Object/TreeOps, moves the branch through Refs
--               and asks Zone for the bumped SOA.
--   Replicate   pkg/replicate: Replicate.antt is protocol.go and server.go (handleRefs, handleWalk,
--               handleObject, walkReachable, walkMissing), Replicate/Client is client.go (Pull,
--               pullBranch, Run). The client's primary is what its three endpoints answer.
--   Resolve     pkg/resolve: Resolve.antt has the messages, the choice of the commit and the parts of
--               a reply, Resolve/Handle is Handle and HandleWithRemote, Resolve/Remote the address of
--               a client (resolve.go); Resolve/Axfr is axfr.go, Resolve/Ixfr ixfr.go, and
--               Resolve/Snapshot snapshot.go. A query reads a Repo and changes nothing.
--   Route       pkg/route/route.go: NewBucketRouter, Route, subnetBytes. It is a router of Resolve.
--
-- Conventions. A Go string or byte slice is a list of numbers; a uint8 kind is a number. An error is
-- its sentinel (ErrNotFound and so on) or `failed`, without its text. `Outcome S A` is a result with
-- the state it leaves, so writes made before an error are kept. SHA-256 is a parameter of every
-- definition that hashes; theorems about trees suppose that it returns 32 bytes, and that the writes
-- at hand are clean: no two different objects on one hash, none on the zero hash, no payload above
-- 2^47 bytes. A context, and errors of the storage itself, are left out: the in-memory store has none.
-- The allocation in DecodeTree is modelled with the 56-byte entries and the 2^48-byte limit of Go on
-- a 64-bit machine.
--
-- Fuel. `search_loop` gets the length of the list, `put_uvarint` nine rounds for ten bytes,
-- `merge_loop` as many rounds as the three nodes have entries, since each round passes one at least;
-- `read_headers` one more than the payload's length. `digits` gets the number itself. `merge_trees_at`,
-- `diff_walk` and `emit_only_side` get a bound on the depth of the trees; `log`, `walk_at` and `blame`
-- one on the length of the chain, and the searches of Repo one on the commits that they visit
-- (`commits` in `merge`, whose `depth` bounds the trees, as in the transfers of Resolve, whose search
-- for a serial needs 10001 rounds at most: Resolve/Ixfr/Enough). The walks of Replicate get a bound on
-- the depth of the objects, for which one more than the number of objects that were ever written is
-- enough (Replicate/Fuel); `walk_all_leaves` gets one on the height of the tree.
--
-- Text is single-byte: ToLower, TrimSpace and Fields are those of ASCII. A time is its Unix seconds
-- and its zone's offset, which is all that a commit's text holds of it.
--
-- The clock of a commit and of its reflog entry are arguments, `now` and `stamp`; so are the readings
-- of the clock by a query and by a tick of the snapshotter.
--
-- An HTTP reply is its status or its decoded body. What Resolve reads and builds of miekg/dns
-- messages are the records `Request` and `Response`; the names of types and the contents of SOA and
-- CNAME records come from the parameters `Dns` and `DnsMessages`. The parsers of package net and fmt
-- that Route calls are parameters. Handles of the snapshotter are numbered as they are opened.
--
-- Not modelled: the Badger backend, a database of a third party; the signing of commits and zones;
-- the metrics of the resolver; the command-line tools, the daemon and the CoreDNS plugin, which parse
-- flags, print and start the rest. Of what is modelled, the goroutines, timers, deadlines and locks
-- are left out, the static snapshotter, and the split of a transfer into messages.
pub mod Base
pub mod Store
pub mod Object
pub mod Merge
pub mod Refs
pub mod Replicate
pub mod Repo
pub mod Resolve
pub mod Route
pub mod History
pub mod Zone
