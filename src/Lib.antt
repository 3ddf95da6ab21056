-- ===== src/Lib.antt =====
-- reac-pw, a PipeWire daemon for REAC audio networks: the decisions that its C sources make about a
-- wire, without the clocks, sockets and graph nodes around them.
--
-- The program. main.c polls every wire of the host. A wire that nothing masters is knocked on, and a
-- box that has dropped is woken by a PHY edge; a node that lost its link is recovered in a fixed
-- timetable; a watched wire takes the role that what it hears allows; a master fits its link's budget
-- or is not started; a receiver is bound to the sender it heard long enough. What the operator wrote
-- about segments is read from the configuration's files, and what the daemon does with each segment is
-- published as properties. A controller's writes to the head amps are read from its parameters, and the
-- queueing discipline for launch times is installed and taken back. Each of these is a pure state with
-- a step, in a source of its own, and is modelled by a module of the same name. Around them main.c decides
-- how a heard segment is opened, which masters share a port, and when a segment goes back to its wire.
--
-- The files, with their sources under src/ of the repository:
--   Wake, Wake/Ladder, Wake/Spacing           reac_wake: the ladder of PHY edges, `reac_wake_step`
--   Recover, Recover/Schedule, Recover/Pair   reac_node_recover: a node's attempts and its pair
--   EmptyMaster, EmptyMaster/Quiet            reac_empty_master: a master that no box answers
--   Watch, Watch/Roles                        reac_watch: which role a watched wire takes
--   LinkBudget, LinkBudget/Fits               reac_link_budget: whether masters fit a link
--   RxBind, RxBind/Stable                     reac_rx_bind: which sender a receiver is bound to
--   DeclaredVlan, and its Split and Table     reac_declared_vlan: names and table of VLAN segments
--   Segconf, Segconf/Text, Segconf/Parse,     reac_segconf: the parser, its table, the check across
--     Segconf/Queries, Segconf/Vlans            keys, and the questions the daemon asks
--   Segconf/Bounds, Segconf/Cross,            what a load keeps, what a file leaves alone, and a
--     Segconf/Frame, Segconf/DropIn             written drop-in read back
--   Segconf/Load, and its Order, Names,       the loader: which files are read and in which order, what
--     Files, Sound and Refresh                  a load keeps, and when a refresh loads anew
--   Roster, Roster/Words, Roster/Order,       reac_roster: the rows, their order, the delta and the
--     Roster/Delta, Roster/Publish, Roster/Emit   client that applies it
--   KnockWire, KnockWire/Run,                 reac_knock_wire: the knock, its loop over slots, its
--     KnockWire/Ladder                          wake ladder
--   KnockWire/Backoff, KnockWire/Spell,       the period, what starts and ends a knock, the loop's
--     KnockWire/Fuel, KnockWire/Silence,        end, what it sends, and the edges it spends
--     KnockWire/Edges, KnockWire/Timing,
--     KnockWire/Loop
--   Qdisc, Qdisc/Owned, Qdisc/Catchup         reac_qdisc: the discipline the daemon installs and takes back
--   Headamp, Headamp/Render                   reac_headamp_state: assertions, refusals, the rendering
--   Headamp/Parse, Headamp/Said,              reac_headamp_prop: cells read from a controller's parameters,
--     Headamp/Walk, Headamp/Accept              and what those parameters say
--   Settings, Settings/Rate, Settings/Role    reac_rate_cfg and reac_role_cfg: what a parameter write is
--     Settings/First, Settings/Decide           answered, and the settings it leaves
--   Knobs, Knobs/Argv                         reac_knobs: the knobs of the receiver and their layers
--   Served, Served/Undone                     reac_served_mark: the mark left on a served interface's alias
--   LinkOwner, LinkOwner/Bare                 reac_link_owner: whether the host itself uses a link
--   Box, Box/Pin, Box/Row, Box/Slots          reac_box_pin, reac_box_row: pinned models, rows of boxes
--   RosterNode, RosterNode/Graph,             reac_roster_node, and main.c's timer that drives it
--     RosterNode/Shown
--   Daemon, Daemon/Serve, Daemon/Licence      main.c: the role a heard segment is opened with
--   Daemon/Trunk, Daemon/Trunk/Fresh          main.c: tags heard on a parent, and whether it is a trunk now
--   Daemon/Follow, Daemon/Follow/Silent       main.c: the polls that send a segment back to its wire
--   Daemon/Edges, Daemon/Edges/Overdue        main.c: the ladders of the wires that are knocked on
--   Daemon/Segments, and its Sole, Kept,      main.c: the table of segments, and the polls that serve one
--     Runs and Conceded                         anew
--   Daemon/Budget, and its Yielded,           main.c: a port's budget, who yields it, and the admission of
--     Holders and Admitted                      a master
--   Prelude and its children                  lists, C strings, machine words, signed integers
--
-- Interactions. Segconf hands the names of its segments to DeclaredVlan, as `reac_segconf_declared`
-- does; KnockWire/Ladder drives Wake with the counters of a knock, as `reac_knock_ladder_step` does, and
-- Daemon/Edges keeps one such ladder for each wire. Daemon/Budget asks LinkBudget whether masters fit and
-- DeclaredVlan for the port of a VLAN; Daemon/Follow drives EmptyMaster; Daemon/Serve reads the verdicts
-- of Watch, and Daemon/Segments opens what Serve configures and carries out what Watch decides.
-- RosterNode publishes Roster's delta and forgets what a dead graph no longer shows.
--
-- Conventions. A struct is a record, a fixed array with its count a list and the bound it is tested
-- against; a function that changes its argument returns the changed state. Times are nanoseconds, and
-- a 64-bit difference wraps as the source's does (`sub64`, `u64`). A NULL argument that a function only
-- guards against has no counterpart.
--
-- Bounds and fuel. The only loop without a bound of its own is that of `reac_knock_wire_run`. It runs on
-- fuel here and answers `none` without it; the theorem on its end gives the fuel that is enough, from a
-- cycle of at least one slot, a cadence of at most one slot a nanosecond and a clock below 2^63.
--
-- Parameters. libreac is not part of this repository. Its role vocabulary and box catalogue are
-- functions that the configuration's definitions take; its hunting master, its masterless licence and
-- its frames are the record KnockWire.Interface.Libreac; the sending callback is a function of the
-- caller's context. Its layers of configuration, its naming and the answer of the kernel's dumps are
-- functions or inputs of Knobs, Box, Served and LinkOwner, and its hunt is a value of Daemon. What
-- the system answers about the configuration's directory is the record Segconf.Load.Disk. The kernel
-- of Qdisc, and the protocol's numbers of Headamp, are records too; its pods hold floats of any type,
-- with the nearest byte a function. What a theorem assumes of them stands among its hypotheses, such as
-- that a step of libreac's master keeps the length of its cycle, that its roles are the ends that an
-- intent names, and that the kernel's requests do to a device what they answer.
--
-- Not modelled. Of main.c the sockets, the timers, the command line and its usage, the creation of nodes
-- and the journal; of the hunt only its verdict. The sink and source nodes and the graph helpers are
-- callbacks of PipeWire, sockets and netlink, as is the alias of a link. The sentences of the
-- configuration's refusals are kept as their reasons, and its home is fixed. Ensuring a node and the
-- knock's credit are one comparison each. Floating point is left out, with the gain and the latency.
pub mod Prelude
pub mod Wake
pub mod Recover
pub mod EmptyMaster
pub mod Watch
pub mod LinkBudget
pub mod RxBind
pub mod DeclaredVlan
pub mod Segconf
pub mod Settings
pub mod Knobs
pub mod Served
pub mod LinkOwner
pub mod Box
pub mod Daemon
pub mod Roster
pub mod RosterNode
pub mod KnockWire
pub mod Qdisc
pub mod Headamp
