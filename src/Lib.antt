-- ===== src/Lib.antt =====
-- sbox-manager, a manager of sing-box proxy instances: its configuration rules, the files that it
-- generates and applies, and its traffic accounting.
--
-- A manager reads a global configuration and one file per instance, completes and checks them
-- (internal/domain), gives new instances their ports (internal/instance and internal/config),
-- generates the files of sing-box from them (internal/generator/singbox), compares them with what
-- is there and applies the difference (internal/runtime), and collects the traffic that each instance counts
-- (internal/traffic) into two tables: records of bytes by hour, day and month, and baselines, the last
-- reading of each counter. A server indexes the subscription inputs of the managers by user
-- (internal/subscription), gives each user the nodes that are theirs, and watches the inputs
-- (internal/subserver).
--
-- Where to find what:
--   Common      tests, lists, texts, integers and association lists that all parts use
--   Std         the functions of Go's library that the code calls: strings.Split and others, strconv,
--               path/filepath, net.SplitHostPort, net.JoinHostPort and net.ParseIP
--   Domain      internal/domain
--     Models, Defaults, Issues     models.go, defaults.go, errors.go
--     Checks, Protocols            the checks of single fields in validation.go
--     Inbounds, Outbounds, Routing the checks of the parts of an instance
--     Nodes, Merge, Manifests      subscription nodes, their merging, bundle and backup manifests
--     Globals, Refs, Instances     the global files, outbounds that refer to other instances, one
--                                  instance, the configuration set and its ports
--     Platform                     what is asked of the packages time and net/url, as parameters
--   Traffic     internal/traffic
--     Types, Windows, Stats        types.go and models.go, time.go, stats.go
--     Tables, Repository           repository.go: the tables and their statements, the operations
--     Records, Collector           collector.go
--     Queries                      query.go, and the subtotal of collector.go
--     Cleanup                      cleanup.go
--   Config      internal/config
--     PortRanges                   portrange.go
--   Generator   internal/generator/singbox
--     Model                        model.go
--     Transports, Converts, Builds generator.go: the parts, and the whole configuration
--     Inputs                       subscription.go: subscription inputs
--   Runtime     internal/runtime
--     Model                        types.go, and the file system
--     Manifests, Plans, Applies    manifest.go, plan.go, apply.go
--     Lifecycle                    lifecycle.go
--   Manager     internal/instance
--     Ports                        manager.go: the allocation of ports
--     Members                      manager.go: the members of groups and the outbounds for them
--     Clones                       manager.go: clones
--   Subscription  internal/subscription
--     Inputs                       index.go: the reading of the input directory
--     Index                        index.go: the index of the nodes by user
--     Formats                      render.go: the formats and the nodes that each supports
--   Subserver   internal/subserver
--     Routes                       server.go: the paths of subscriptions
--     Requests                     server.go: the state of the index, authorization, the handlers
--     Watcher                      server.go: the rounds of the watcher
-- Modules below these hold the proofs; the Examples modules run them on data.
--
-- How the code is read. A function of the model has the name of the Go function in snake case, or a
-- shorter one where its module says the rest. A validator of the code adds issues to a list; the model's returns the issues that it adds, in the
-- same order, with format and arguments in place of the printed message. `int` and time.Duration are
-- integers without bound, except sums of uint64, which are taken modulo 2 ^ 64. A slice that is
-- compared with nil is an Option. A Go map is an association list; where the code ranges over one, the
-- list stands for any order that the range may take. An instance that is changed through a pointer is
-- returned. Loops are recursions on their lists; the loop over a port range counts down from the
-- number of its ports, so it needs no other fuel.
--
-- The database is a pair of tables and a list that says which of the next statements fail; a
-- transaction that fails takes the tables back. Parameters of the model are the addition of SQLite
-- (Engine: exact below 2 ^ 63), the time zone (Location), the statistics of an instance (Client) and
-- the answers of the packages time and net/url (Platform). Times are Unix seconds. Row numbers are
-- left out.
--
-- The file system is a list of files by path, the paths that cannot be read, and a list that says
-- which of the next changes fail and whether before or after the file is replaced. Parameters of the
-- runtime are a type of byte strings with the encodings of encoding/json and the hash of crypto/sha256
-- (Codec, whose laws are in CodecLaws; the round trip of a manifest keeps its association lists, where
-- encoding/json sorts the keys: the program reads these maps by key alone), the checker of configurations, the service manager and the
-- short hash of a ref (FNV-1a). The server has the decoding of paths (net/url), the texts of statuses
-- (net/http) and the renderer as parameters, the loading of inputs has the strict decoding of their
-- bytes (yaml, encoding/json), and the watcher has their hash (SHA-256).
-- The watcher sees the input directory once at the tick and once behind the pause of each round.
--
-- Not modelled: services, installation, backup, the rendering of subscriptions, bundles, the HTTP
-- server, and the command line; a read-only database without its tables, which reads as an empty
-- one; processes and networks; modes and owners of files; the opening of the database; tables and
-- CSV of the traffic queries; the JSON text of what is generated.
mod Common
pub mod Std
pub mod Domain
pub mod Config
pub mod Generator
pub mod Runtime
pub mod Manager
pub mod Traffic
pub mod Subscription
pub mod Subserver
