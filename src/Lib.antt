-- ===== src/Lib.antt =====
-- FYRwall manages the firewall of a host, and of a fleet of hosts: an HTTP server (internal/api)
-- authenticates a user, a privileged agent (internal/agent) applies transactions of rules through
-- the firewall manager (internal/firewall/manager.go) and a backend (ufw or iptables), and a
-- database (internal/database) keeps the enrolled agents, their commands and the rollouts. This
-- library models the parts that decide: what a rule means and conflicts with, when a transaction
-- is valid, how the manager applies it, who may do what, and how the fleet moves on.
--
-- The files and the code they are about:
--   Base, and its children: shared names, lists, maps, bytes, Go's `int` (64 bits), and what the
--     program uses of Go's `strings` and `strconv`.
--   Net: net.ParseIP, netip.ParseAddr, net.ParseCIDR and containment of addresses. The groups of
--     an IPv6 text are read on fuel 8, the number of groups of an address.
--   Firewall.Rules: internal/firewall/models.go. Texts that the source types as enumerations stay
--     texts, since a decoded rule may hold any.
--   Firewall.Ports, Addresses, Matching, Conflicts: internal/firewall/conflicts.go. `portRange` is
--     `port_range`, `addrSubset` is `addr_subset`, `pairwise` is `pairwise`, `lockoutChecks` is
--     `lockout_checks`, `AnalyzeConflicts` is `analyze_conflicts`. The insertion sort is structural
--     recursion on the rest of the list. Their children hold what the functions mean.
--   Firewall.Validation: internal/firewall/validation.go (`ValidateRule`) and validate.go
--     (`ValidateTx`). A message is a constructor with the arguments of its format call.
--   Firewall.Ownership: internal/firewall/ownership.go.
--   Firewall.Manager: internal/firewall/manager.go. `Manager` holds the fields of the struct, the
--     state of the host, and the events handed to the audit log and the issue sink. `Backend` is
--     the interface FirewallBackend: a record of functions from the state of the host to a result
--     and the next state. `apply_transaction` is one function for each step of ApplyTransaction.
--   Firewall.Shell: the commands of the host as the two backends use them. `Shell` is a record of
--     functions: what `exec.Run` and `exec.RunInput` come to, the identifiers, the clock, SHA-256
--     and `%q`. Firewall.Lines: how the lines of a listing take their places.
--   Firewall.Iptables: internal/firewall/iptables. Parser is parser.go: each line is read to the
--     end, an option with the token behind it. Arguments is `ruleToArgs`, Backend the methods of
--     the backend, put together as a `Backend` of the manager.
--   Firewall.Ufw: internal/firewall/ufw/ufw.go. Arguments is `toUFWArgs`, Listing the parsers of
--     the two listings, Backend the methods. The folding of letters that EqualFold, ToUpper and
--     ToLower do is compared against a fixed ASCII word, with the two letters outside ASCII that
--     fold into it.
--   Agent.Server: internal/agent/server.go. `dispatch` is one function by cases of the operation,
--     over the manager; `Decoder` stands for encoding/json.
--   Sealed: the authenticated encryption of crypto/cipher as a record of operations and of what is
--     documented of them: what was sealed is opened again, a sealed text is longer by the tag, and
--     a nonce has eight bytes at least. Base.Frames: parts of byte sequences and 32-bit lengths.
--   Logging: internal/logging. The parent is the frame of a record and the loop of `DecryptFile`,
--     on fuel of one more than the number of bytes, which is enough since a step takes four. Decrypt
--     and Prefix say what it reads, Rotation is `Rotator` (Bound: the bytes on the disk), Sanitize is
--     logger.go.
--   SecureConfig: internal/secureconfig/secureconfig.go over the same encryption. Config:
--     internal/config/config.go. Validate is the list of its conditions in the order in which they
--     are tested, Load reads the file through SecureConfig; the YAML parser is a parameter.
--   Extension: internal/extension/extension.go. Integrity: internal/integrity/integrity.go.
--   Records: internal/database/repos.go, the tables of notifications and of the audit trail.
--   Agent.Sync: internal/agent/sync.go, one turn of the loop as a function of what the network, the
--     clock and the disk answer to it; a run is a list of turns and starts.
--   Users: internal/database/users.go, the table as the list of its rows.
--   Api: internal/api. Guard is the middleware of middleware.go as functions on handlers, Routes
--     the guarded routes of server.go, Settings the change of settings of server.go, Login the
--     handlers of login, logout and setup.go, Fleet those of
--     fleet.go that change state: a waiting poll is a list of ticks, each with what other requests
--     did to the database before it. A record
--     `Outside` stands for the hash of passwords, the token bucket, the session store and the
--     clock.
--   Auth: internal/auth. rbac.go is Rbac, password_policy.go is Password (a record of functions
--     stands for the Unicode tables), ratelimit.go is RateLimit (a record stands for
--     golang.org/x/time/rate), session.go is Csrf (a session is the token that it holds).
--   Health: internal/health/health.go. Each method is one step under its lock.
--   Update: internal/update/update.go: the comparison of versions, and `Check` over what the
--     request for the manifest came to.
--   Fleet: internal/database/fleet.go and the tables of schema.go. A table is the list of its
--     rows, `select` and `update` are the statements, and a method is a function from the database
--     to its result and the next database. The hash of tokens, the random identifiers, the order
--     of the list of agents and the order of formatted instants are parameters. `CompleteCommand`,
--     `advanceRollout` and `queueRolloutBatch` are composed as in the source.
--   Tests: evaluations, and the theorems at concrete inputs.
--
-- Conventions. An `int` is an integer over the native numbers; `strconv.Atoi` gives the bounds of
-- 64 bits on overflow beside its error, and no other arithmetic of the modelled code can leave
-- them. Instants are numbers. A decimal text is written with 20 digits at most, which every 64-bit
-- number fits. An operation that can fail answers an Option, a sum or a list of faults.
--
-- Not modelled: the command line and the assembly of the server (cmd, internal/app), the handlers
-- of internal/api that only pass data on, transport and signatures (internal/agent, internal/pki),
-- the search for binaries and the running of commands, the making of keys and log files,
-- diagnostics, the migrations of the database, the web interface and packaging: they are input and
-- output, third-party cryptography, or not yet done. A nil dereference (a command without a result)
-- reads as an empty text; a slice out of bounds is an outcome of its own where the code can reach it.
-- Failures of the database itself and the interleaving of two requests are left out as well.
pub mod Base
pub mod Net
pub mod Firewall
mod Tests
pub mod Agent
pub mod Auth
pub mod Api
pub mod Users
pub mod Records
pub mod Health
pub mod Sealed
pub mod Config
pub mod SecureConfig
pub mod Logging
pub mod Update
pub mod Fleet
pub mod Extension
pub mod Integrity
