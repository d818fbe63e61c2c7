-- ===== src/Lib.antt =====
-- The network renderer of a containerlab lab: Python code that turns a control-plane model into the
-- shell commands that configure the containers. A control module of clabgen/s88/CM takes a JSON
-- document and gives a list of commands or raises an error; the dispatch runs the modules of a node
-- in a fixed order. In the containers, one materializer derives protected prefixes, another one turns
-- reservations into the configurations of the DHCP server and the resolver, and a DNS proxy answers
-- from local records or asks a forwarder.
--
-- Which file models which part (paths from the repository's root):
-- - Prelude, with Tests, Lists and Assoc: the names that the other files share.
-- - Py: what the code uses of Python. Value is a JSON document with `get`, truth and `==`; Result is
--   an exception as a value; Iterate is what a loop runs over; Text, Repr and Sort are the
--   operations on texts, `json.dumps`, `shlex.quote` and `sorted`; Ip, with Parse, Laws, Bits and
--   Coerce, is the module `ipaddress`.
-- - Tenant, with Derivation and Output: `derive` of
--   docker-clab-frr-plus-tooling/protected-ipv6-materializer.py.
-- - Reservation (identities and pool), Reservation.Kea (records and their insertion),
--   Reservation.Dns (the local data of the resolver) and Reservation.Main (the run):
--   docker-clab-frr-plus-tooling/protected-reservation-materializer.py.
-- - Linux.Addressing, Linux.RouteValues, Linux.RouteState, Linux.RouteVia, Linux.UplinkRoutes: the
--   files linux_addressing.py, linux_route_values.py, linux_route_state.py, linux_route_via.py and
--   linux_uplink_routes.py of clabgen/s88/CM, a definition for each function without its leading
--   underscore and one for the body of each loop.
-- - Linux.PolicyRoutes, with Surfaces (where routes leave), Groups and Collect (the routes of a
--   table), Lanes, Rules, Sources and Tables (the commands of a table), Returns (claims on shared
--   interfaces) and Returns.Render (ways back, and `render` itself):
--   clabgen/s88/CM/linux_policy_routes.py.
-- - Linux.Selection (validation) and Linux.Selection.Render (pairs and commands):
--   clabgen/s88/CM/relation_selection_rules.py.
-- - Firewall.CpmRules, Firewall.CpmRules.Runtime and Firewall.Rules:
--   clabgen/s88/CM/cpm_firewall_rules.py; Firewall.Policy: clabgen/s88/CM/policy_firewall.py.
-- - Control (forwarding.py, empty.py, management_egress_guard.py), Control.Wan (firewall_wan.py),
--   Control.Nat (nat.py) and Control.Dispatch (base.py), all of clabgen/s88/CM.
-- - Dns: the names and questions of clabgen/s88/CM/dns_proxy_protocol.py, on lists of bytes;
--   Dns.Fallback: its blocked namespaces (lower case is that of ASCII) and its failure answer;
--   Dns.Answer: local answers and `forward_udp`, with `query_forwarder` (sockets) as an argument.
-- - Tests: the theorems at concrete inputs.
-- The theorems about a part are in its children; where there is one such child it is called Laws.
--
-- How the code is modelled. A set that is only a filter for repetition is the list of what has been
-- added. A loop is recursion on the list that it runs over, with its state as an argument. Fuel is
-- used in two places: `dec` and `hex` print a number with as many steps as the number's own value,
-- which Py.Text.Laws is about, and `read_labels` of Dns has as many steps as there are bytes, of
-- which each label takes one or more. An exception keeps its class and the fixed part of its
-- message. Log lines are left out. The text of a source file is an argument.
--
-- Bounds: addresses are numbers below 2 ^ 32 or 2 ^ 128, as `ipaddress` checks them, and Python's
-- integers have no width.
--
-- What is not modelled. JSON numbers are integers; floating-point numbers do not occur. Of two
-- equal keys the first counts, which JSON documents do not have. IPv6 scope identifiers are refused.
-- In the policy routes, destinations and next hops are texts or absent, and a table or a priority
-- that is the Boolean `true` is printed as 1.
-- `lower` and `strip` know the characters of ASCII. The parts of the program that have no file here
-- build texts for daemons, read the solver's documents or glue modules together.
pub mod Prelude
pub mod Py
pub mod Reservation
pub mod Tenant
pub mod Linux
pub mod Firewall
pub mod Control
pub mod Dns
pub mod Tests
