-- ===== src/Lib.antt =====
-- ionscale: verification library.
--
-- ionscale is a control server for tailnets. A tailnet has machines, users and an access policy; a
-- machine that polls the server is sent the peers that it may see, a packet filter, an SSH policy and
-- the state of the tailnet's lock. Admins call an API with a token. This library models the parts that
-- decide who may reach whom, which node keys are let in, and who may change what.
--
-- Parts, and the files that model them (functions are named as in the code, in snake case):
--   * Policy: the records of a policy, pkg/client/ionscale/types.go; Machine: machines, users,
--     tailnets and the questions about a machine, internal/domain/machine.go, user.go, tailnet.go.
--   * Acl (Ports, Approval, Owners): aliases, tag owners, automatic approval of routes, node
--     attributes and port ranges, internal/domain/acl.go; StringSet: the set of strings of that file.
--   * Filter (Aliases, Rules, Peers and the theorems in Sources, Destinations, Visible): the packet
--     filter `BuildFilterRules` and the visibility test `IsValidPeer`,
--     internal/domain/acl_filter_rules.go. Both stand on the translation of aliases in Aliases.
--   * Ssh (Users, Principals): `BuildSSHPolicy`, internal/domain/acl_ssh_policy.go.
--   * Lock (Chonk, Db, Tka, Handlers, Registration, Requests and the theorems in Ensures, Invariant,
--     Init, Stopped, Disable): the tailnet lock. Chonk and Db are the rows of internal/domain/tka.go and the
--     queries of machine.go; Handlers is internal/handlers/tka.go. A handler is a function from the
--     database to a reply and the database that it leaves; an error leaves the database as it was.
--   * Mapping (Peers, Shown, Routes, View): the answers to a machine that polls for the network map,
--     internal/mapping/poll_net_mapper.go, with the part of `ToNode` (mapping.go) that says where
--     traffic for a node goes. It takes its filters from Filter and Ssh. View follows the answers of one
--     poll, internal/handlers/poll_net_map.go.
--   * Pollers (Targets, Safety): the session manager, internal/core/session_manager.go, for one
--     tailnet: its calls and the firing of its timers are the steps of a relation.
--   * Store (Rows, Saves): the other queries over machines, internal/domain/machine.go, on the rows of
--     Lock.Db; AllowIps (Members): the set of routes of that file.
--   * Address (Search): the selection of a free address, internal/addr/addr.go.
--   * Identity (Tokens, Creation, and the theorems in Loads, Granted, RoundTrip): principals, roles
--     and keys, internal/domain/principal.go, user.go, iam.go, api_key.go, auth_key.go,
--     system_api_key.go, the exchange of a token, internal/service/interceptors.go and
--     internal/token/token.go, and the random texts of internal/util/util.go.
--   * Tags (RoundTrip): the column of a list of tags, internal/domain/tags.go. The tags of an auth key
--     go through it when the key is saved; a row of a machine holds the tags that it was saved with.
--   * Service (Machines, and the theorems in Answers, Steps, Invariant, Isolation, Routes, Expiry): the
--     API over machines, internal/service/machine.go, and over auth keys (AuthKeys, with the theorem
--     in Issued), internal/service/auth_keys.go. A handler is a function from a principal and the
--     database to an answer; what it changes is seen by Mapping, which reads the same rows.
--   * Registration (Handlers, Followup, Register, and the theorems in Answers, Addresses, Entry,
--     Known): the registration of a machine, internal/handlers/registration.go. It takes the owners of
--     tags and the approval of routes from Acl, the address from Address, the auth key from Identity, and the
--     signature from Lock.Registration.
--   * Iam: the policy of who may enter a tailnet, internal/domain/iam.go. Tables: the accounts, users,
--     tailnets and requests of logins and of SSH checks with their queries, internal/domain/account.go, user.go,
--     tailnet.go, authentication_request.go, ssh_action_request.go and registration_request.go.
--   * SignIn (Sessions, Access, Finish, Handlers, and the theorems in Boundary, Denial, Roles, Adds, Granted,
--     Ending, NoPage, Choice, Owner): the sign-in with an identity provider,
--     internal/handlers/authentication.go, session.go and internal/auth/provider.go. Finish is the end of a
--     login and of a registration, and takes the owners of tags from Acl, the address from Address, the
--     keys from Identity and the signature from Lock.Registration. A handler gives a reply and the
--     tables that it leaves.
--   * SshAction: the check before an SSH session, internal/handlers/ssh_action.go. The callback of
--     SignIn writes the row that it waits for.
--   * Service.Users, with the theorems in Without and Revoked: the users of a tailnet and the end of an account,
--     internal/service/users.go.
--   * Service.Tailnets (Provisioned, Changes, Settings, Calls), on the records and queries of
--     Service.Provisioning: the calls that change a tailnet, internal/service/tailnet.go,
--     acl.go, iam.go and dns.go; Dns: its DNS config, internal/domain/dns_config.go.
--   * Workers (Sweeps, Ephemeral): the two background loops, internal/core/worker.go, a round being a
--     function of its time and of the database.
--   * Netip, Strconv: the parts of Go's net/netip, strconv and strings that these files use.
--   * Prelude: shared names, texts and lists. Examples: runs on a small tailnet.
--
-- What is a parameter: how an address and a prefix are written as text (`AddrText`), tailscale.com/tka
-- with tailscale.com/types/key (`TkaLib`), the CGNAT range with the questions to tsaddr (`Range`), the
-- decoding of tokens and the hashes (`TokenLib`), two functions on names (`NameLib`), tailcfg's check
-- of a tag, the hash of a password, the numbers that are drawn, the clock, random values and texts of
-- a registration (`Env`), time.ParseDuration, HuJSON with the grammar of filters and the comparison of
-- policies (`PolicyLib`), three functions on names (`DnsLib`), and of a sign-in (`Site`) the identity
-- provider, go-bexpr's evaluation of a filter, and the steps of the sealing of a session: JSON, nacl's
-- box, base58 (`SealLib`), and a client of the network map (`NetmapClient`). Nothing is assumed of them, but that the opening of a session undoes its
-- sealing where a theorem says so, that where a search for an address is said to end, the numbers
-- below the count of the range have an address, and where a key is said to be made, that the numbers
-- drawn for letters are below their count and that bcrypt hashes the password and accepts it again. A
-- client applies answers as tailcfg documents Peers (complete, if not empty), PeersRemoved and
-- PeersChanged. A
-- channel of the session manager is a number, and a registration brings one that was not registered
-- before, as the poll handler does. A fired timer runs its goroutine in one step.
--
-- Choices: texts are the native strings, numbers the native naturals, a 16-bit port is read with its
-- bound. gorm drops an empty field of a struct from a condition, and so does `where_text`. A row of a
-- machine or a key holds the user and the tailnet that it was saved with. A map with string keys is
-- the list of its entries, read at the first entry of a key. A set's keys are kept in the order of
-- their insertion, where Go gives them in any order; `Items` sorts them. The two addresses of a
-- machine are always set. Every loop is structural but the one of SelectIP: its fuel is the number of
-- addresses in the range, after which the code would try the same ones again. The rows of a tailnet's
-- lock are a function of the tailnet's id, and a query of the database succeeds. The mutex per tailnet
-- makes the requests to a lock a sequence, and `run` goes through such a sequence. Of an error the
-- status code is kept where it is an HTTP error, and nothing else; a log entry is left out, and a call
-- of `NotifyAll` is recorded.
--
-- Not modelled: the user profiles and DNS settings of the network map, the providers of OIDC behind a
-- sign-in, its pages but for what they tell, the column `last_authenticated` of an account, which
-- nothing reads, the DERP map of a tailnet, DNS but for its config, and the schema of the database.
-- The conversion of a machine, a key or a user to a protocol message is left out of the API's answers.
pub mod Prelude
pub mod Address
pub mod Tags
pub mod StringSet
pub mod Netip
pub mod Strconv
pub mod Policy
pub mod Dns
pub mod Iam
pub mod Machine
pub mod AllowIps
pub mod Identity
pub mod Acl
pub mod Filter
pub mod Ssh
pub mod Lock
pub mod Tables
pub mod SignIn
pub mod SshAction
pub mod Store
pub mod Mapping
pub mod Service
pub mod Registration
pub mod Workers
pub mod Pollers
pub mod Examples
