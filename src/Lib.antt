-- ===== src/Lib.antt =====
-- bgscan: a scanner of IPv4 and IPv6 lists.
--
-- The program reads a list of addresses and CIDR ranges, streams their addresses in file order or
-- shuffled, sends each through a chain of probing stages with pools of workers, and writes what
-- responds to sorted result files. The files here model the parts that compute.
--
-- Iplist (internal/core/iplist): type.go, loader.go, parser.go and shuffle.go. `Addr` is the part
--   of net/netip that is used; `Offset` addOffsetToAddr, addBigOffset and saturatingAdd; `Count`
--   the counters; `Import` ImportIPList and its two strategies; `Stream` StreamCIDR and the
--   sequential stream; `Index` NewMasterIndexer, randBigIntBelow and getIPFromCIDRBlocks; `Lcg`
--   the generator; `Shuffle` the shuffled stream, which works on the index.
--
-- Config (internal/core/config and its validate package): `Platforms` profile.go; `Texts` and
--   `Checks` validate.go; `Tcp`, `Icmp`, `Writer`, `General`, `Xray` and `Dns` the sections with their
--   tables of defaults, strict validation and normalisation. Warnings and errors are a field and a kind
--   of error.
--   `Domains` are the checks of domain names, with net.ParseIP as an argument.
-- Portmgr (internal/core/scanner/portmgr): the pool of local ports, as steps of concurrent calls.
-- Result (internal/core/result): merger.go, with the sorting and deduplication of a batch, and in
--   `Merge` the merge with an existing file, whose rows the parser of the schema reads, an argument;
--   `Writer` is manager.go, as steps of its callers and its loop in any order, which hands the batches
--   to `Merge`.
-- Fileutil (internal/core/fileutil/sort.go): SortFile and its two ways to sort; the disk strategy of
--   `Import` starts with it.
-- Pause (internal/core/scanner/engine/pause.go): the pause controller and its clock, for calls that
--   do not overlap.
-- Engine (internal/core/scanner/engine and probe/errors.go): `Slots` is claimResultSlot, as atomic
--   operations of any number of workers; `Errors` NormalizeErr and the counters of errors; `Stage`
--   processIP and a worker's loop; `Chain` the batch mode with one worker a stage, the batches and the
--   channels, and the errors of closing it; `Flow` the streaming mode up to its first cancellation, as
--   steps of any number of workers in any order. What the rate limiter, the probes, the writers and the
--   context do is an argument. An executor's counters are numbers without a bound, where the code has
--   uint64.
--
-- A channel is the list of what was sent to it. A `select` against ctx.Done() asks a function which
-- round finds the context closed. A file that is sorted or imported is the list of its lines, with the
-- reading of a line as an argument; a result file is the list of the results whose rows it has; any other
-- is the list of its parsed rows, with the byte offset of each line where the code keeps it, and reading
-- at an offset is a function. Random numbers are arguments. uint64 arithmetic is on ℕ with `% 2 ^ 64`
-- written out.
-- Fuel: StreamCIDR gets one round more than its prefix has addresses, the shuffled stream one
-- more than its ring has states, the binary search one more than there are blocks; the theorems
-- show that each is enough. The merge of chunks gets one round for each line. The
-- other loops are by recursion on their lists.
--
-- Not modelled: reading and writing of files, the network clients and probes, operating-system
-- processes and the terminal interface, which are input and output; the sequential mode of the
-- chain of stages, which reads the files that its writers leave; a limit or a cancellation in the
-- streaming mode; more than one worker a stage or a cancellation from outside in the batch mode; and the
-- section of the configuration on HTTP.
pub mod Base
pub mod Iplist
pub mod Config
pub mod Portmgr
pub mod Result
pub mod Pause
pub mod Engine
pub mod Fileutil
