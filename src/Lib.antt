-- ===== src/Lib.antt =====
-- quadletman: a model of the web application's own logic, and what is proved of it.
--
-- The program manages compartments of rootless Podman containers. A request reaches a router
-- (quadletman/routers), which reads branded strings (quadletman/models/sanitized.py) out of it and calls
-- a service (quadletman/services); the services write Quadlet unit files, call systemd and Podman, and
-- keep the login session with its password (quadletman/security). What a form offers depends on
-- the version of Podman (quadletman/podman.py, quadletman/models/version_span.py).
--
-- The files, and what they model:
--   Prelude      shared names, Python's texts as lists of code points (strip, split, splitlines,
--                int and str in base 10 with the limit of 4300 digits), dicts in insertion order;
--   Regex        regular expressions as `re` matches them: `match_end` is `^r$` with its optional
--                newline at the end, `match_prefix` is `^r`; the language is the family `In`;
--   Sanitized    quadletman/models/sanitized.py and constraints.py: Patterns has the constants, Check
--                the shared steps of every `.of()`, Names and Values one function for each class,
--                Brand the classes as one enumeration, Paths the redirect, path and log helpers;
--   Security     quadletman/security: Keyring is keyring.py, Session is session.py; a store is the
--                two module dicts with the kernel's state, each function returns the new store, and
--                keys end by the kernel's clock, which `Session` and the laws read in ticks;
--   Quadlet      quadletman/services/quadlet_writer.py: IdMap is `_resolve_id_maps`,
--                Units the resources with their mounts and `_render_container`, Sync the list of the
--                files and `check_service_sync`, with `tidy` and `compare_file` of unsafe/quadlet.py;
--   Podman       quadletman/podman.py and models/version_span.py: Span has `VersionSpan` and its
--                checks, Tooltips the messages, Features `_parse_version` and `get_features`, Info
--                `get_podman_info` with its cool-down, the driver lists and the caches;
--   Bundle       quadletman/services/bundle_parser.py: Sections splits a text and reads names, types
--                and fields, Units and Parse build the records of models/service, in the order of
--                the code; the joining of sections is that of `export_service_bundle`;
--   Compartments quadletman/services/compartment_manager.py: Patterns has the tables of processes and
--                patterns with `upsert_process`, the pattern operations and `set_process_known`;
--                Operations the rows of queued operations with `_execute_operation`; Lifecycle resync,
--                sync check, start, stop and restart, with the calls of the host in order;
--                Resources the images, networks and pods with their rows and unit files;
--                Connections the connections that were seen, the allowlist and the monitor's round;
--   Users        quadletman/services/user_manager.py: Subids is the allocation of ranges in /etc/subuid
--                and /etc/subgid, Helpers the loops over the helper accounts;
--   HostSettings quadletman/services/host_settings.py: the settings, `_validate_value`, `_persist` and
--                `apply`;
--   Notifications quadletman/services/notification_service.py: Webhook is `fire_webhook`, States the body
--                of `_check_once`, Updates a round of `image_update_monitor_loop` with its checks and
--                deliveries.
--
-- A `ValueError` of a branded string is `refused` with the rule that it names; another exception is
-- `none`. Provenance, log messages and the text of errors are left out. Code that is not in the
-- repository is a parameter: libkeyutils with its laws (Security.Keyring.Laws), Fernet
-- (Security.Session.Credentials), `os.path.realpath`, `json.loads`, the Jinja2
-- templates, the runs of `podman`, `usermod`, `useradd`, `userdel`, `sysctl` and `systemctl`, and
-- `re.fullmatch` on the patterns that users write, `str.lower`, the networks of `ipaddress`, the POST
-- of a webhook. Clocks are natural numbers of ticks, and the ids
-- and tokens that are drawn are arguments. A database table is the list of its rows.
--
-- Recursion is structural throughout. `show` takes one more unit of fuel than its number, which is
-- more than the number has digits.
--
-- Not modelled: the HTTP routers and templates, the database and its migrations, the services whose
-- work is to run commands and write files (host, systemd, volumes, secrets, SELinux), and of the
-- compartment manager the volumes, builds, artifacts, containers and timers, the templates, and the
-- locks and workers of the queue.
pub mod Prelude
pub mod Regex
pub mod Sanitized
pub mod Security
pub mod Quadlet
pub mod Podman
pub mod Bundle
pub mod Compartments
pub mod Users
pub mod Notifications
pub mod HostSettings
