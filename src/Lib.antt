-- ===== src/Lib.antt =====
-- Verification of portal_mcp_server, an MCP server that gives agents remote hosts over SSH.
--
-- Base, Base/*: shared helpers: Boolean tests on native numbers, lists measured by native numbers,
--   Python's `str` as a list of code points (Text), results of code that raises, dictionaries.
--
-- Pool, Pool/*: the connection pool of portal_mcp_server/connection_manager.py for one host name.
--   Pool.antt has the operations on the pool under the names of `ConnectionManager`'s methods (`prune`,
--   `reuse_first`, `least_busy` and `add_connection` are the parts of `get_connection`); Pool/System.antt
--   has the tasks that share the pool, as a step relation: a call of `get_connection` is cut where it
--   awaits the host's lock and the new connection, and any other step may come between. Pool/Usable and
--   Pool/Bound count usable connections, Pool/Leases, Pool/Account, Pool/Closing, Pool/Handout and
--   Pool/Safety count the leases. `close_all` empties the pool in one step (`start_closing`) and closes one
--   connection in each later one, or is cancelled; `release_connection` under another spelling of the name
--   does nothing. Clients give back only what they hold. A host's configuration and its options for asyncssh
--   are those of Hosts; several names share nothing.
--
-- Editor, Editor/*: portal_mcp_server/remote_text_editor.py. Editor/Lines.antt cuts a text into lines;
--   Editor/Read.antt is `remote_read` from the file's text on; Editor/Patch.antt is `remote_patch` up to
--   the new text; Editor/Session.antt is all of `remote_patch`, over a remote file with a read and a
--   write as parameters; Editor/Write.antt is `_atomic_write` and the sweep of old temporary files,
--   over a store of files and a server whose answers, replies that get lost included, are an argument. SHA-256, the width of a line in
--   bytes and the conversions of JSON values are parameters. Editor/Patch/* relates the patches made
--   from the bottom up to one pass from the top; Editor/RoundTrip.antt joins reading and patching.
--
-- Policy, Policy/*: portal_mcp_server/security.py: `check_host`, `check_command`, `check_rate_limit` and
--   `enforce`, with `fnmatch.fnmatch` in Policy/Glob.antt. The tables of `str.lower` are a parameter;
--   `rate_limit_rps` is its ceiling; times are natural numbers, `second` of them to a second.
--
-- SafetyNet, SafetyNet/*: portal_mcp_server/safety_net.py: `check` as a function of how the checker's
--   process ends, and the part of `from_config` that it depends on. JSON decoding is a parameter.
--
-- Agent, Agent/*: the cache of portal_mcp_server/credential_agent.py. Agent.antt has the data, Agent/Ops.antt
--   the operations and `dispatch` under the names of `CredentialAgent`'s methods (`describe` is
--   `_fingerprint`), Agent/View.antt what the cache means, Agent/History.antt runs of requests, Agent/Wire.antt
--   `handle`, `request` and `_recv_line` with JSON and the stream's cuts as parameters, Agent/Client.antt the
--   client's calls, Agent/Exchange.antt what comes of them. `line_limit` is asyncio's limit on a line, above
--   which `handle` answers an error. Not modelled: the check of the peer by the
--   operating system, named pipes, and the units
--   that start the agent.
--
-- Audit, Audit/*: portal_mcp_server/audit.py: the ring buffer of `audit_log` with its limit of 500
--   entries, and `get_history`. Not modelled: the log file and its rotation.
--
-- Safety, Safety/*: portal_mcp_server/safety.py: the validators of paths, environments, names and process
--   ids, on values of the type that they want; Safety/Quote.antt has `quote_shell` and
--   `build_cwd_prefix`, with `shlex.quote` as it is documented, and the words that a POSIX shell reads.
--
-- Jobs, Jobs/*: portal_mcp_server/job_manager.py, with the UTF-8 decoder as a parameter. Jobs.antt has
--   `_classify` and `_decode_incremental` (at most four attempts); Jobs/Output.antt what `poll` fetches and
--   shows; Jobs/Follow.antt a client that polls until there is no more; Jobs/Table.antt the table of jobs
--   and the steps of `submit`, `poll`, `cancel` and `_sweep_expired`, in any order; Jobs/Persist.antt the
--   files of records that a restart takes over. Not modelled: the parser of the answer, and the writing of
--   files with their JSON.
--
-- Secrets, Secrets/*: portal_mcp_server/secrets_store.py: `redact`, `env_var_name`, the cache of the process
--   and `resolve_secret`, `resolve_sudo_password` of portal_mcp_server/sudo_creds.py, and
--   `_exec_secret_command` of portal_mcp_server/connection_manager.py. What the credential agent and the
--   commands answer is an argument. Secrets/Stdin.antt is how a command under sudo gets its secrets on
--   standard input, with base64 as a parameter; the shell drops the line ends after a value.
--
-- Transfer, Transfer/*: portal_mcp_server/file_ops.py, over the files of both sides, with what the server
--   answers as an argument. Transfer/Upload.antt is `ssh_upload_file`, Transfer/Batch.antt the lists, the
--   synchronisation and the mirror of directories; `transfer_one` is the end of all their loops. SHA-256
--   and the joining of paths are parameters; a local file does not change during a transfer. A transfer to
--   an existing directory ends inside it; what stat says of a directory is not modelled, nor are
--   the walk of a remote directory, and the operations that pass one call on to SFTP.
--
-- Session, Session/*: portal_mcp_server/session_manager.py: `_execute_locked`, `_soft_cancel`,
--   `_await_next_done` and `_wrap_compound`, over the reads of the channel as a list with the clock at
--   each. Session/Marker.antt has the two regular expressions. The output is left as bytes.
--   Session/Registry.antt has the registry and the connections that it releases. Not modelled: the
--   bootstrap of the integration script, and the environment of a session.
--
-- Tunnels, Tunnels/*: portal_mcp_server/network_tools.py: the registry of tunnels and the connections that
--   it holds. The calls are cut where they wait, and come in any order. A call that is cancelled is not
--   modelled.
--
-- Search, Search/*: portal_mcp_server/remote_search.py from the lines of the output on: the files, the
--   counts, the rows of grep's content with their context, and the pages. Offsets and limits are natural
--   numbers. Not modelled: the command lines and the JSON of rg.
--
-- Shell, Shell/*: portal_mcp_server/remote_bash.py: `remote_bash` with its one retry, `_ensure_session` for
--   one host, and the loop of `remote_bash_many`; how a command ends in a session comes from Session. Other
--   calls for the same host in between are not modelled, nor are the one-shot calls.
--
-- Hosts, Hosts/*: the hosts of portal_mcp_server/connection_manager.py. Hosts.antt has `HostConfig` and the
--   aliases of ssh config files, Hosts/Load.antt `_load_registry` from the mappings of hosts.yaml on,
--   Hosts/Options.antt `_build_connect_kwargs` and the chains of credentials, Hosts/Dial.antt the attempts of
--   `get_connection` to connect, with the second one after PermissionDenied, Hosts/Listing.antt
--   `list_hosts` and the questions about one host. What asyncssh's parser makes of the ssh config files, what
--   the caches hold and what becomes of a command are arguments. Not modelled: YAML itself, and fields of
--   another type than theirs.
--
-- Exec, Exec/*: `remote_exec` and `local_exec` of portal_mcp_server/cli.py. Exec.antt has `run_one`,
--   `run_host` and `run_all`; what a run on a host gives is an argument, by the places of its host and its
--   command. Exec/Call.antt is the call from its arguments on, with `_gate_exec` and `_resolve_secrets`;
--   Exec/Asked.antt says what a call that gives an answer was asked for and allowed;
--   Exec/Local.antt is `local_exec` with the two runs of portal_mcp_server/local_exec.py. The command checker's
--   word on a command, the resolution of a secret and the child process are arguments. Times are whole
--   numbers of a unit. Not modelled: the audit lines, the notes on risk, the progress ticks, and the quotes
--   that `repr` puts in messages.
--
-- Tests, Tests/*: the theorems at concrete inputs.
--
-- All functions are total: loops are recursions on lists, and the only fuel is the number of calls in
-- Editor.Read.Walk's `walk`, in Jobs.Follow's `follow` and in Search.Paging's `collect`, for which the number
-- of lines, bytes or rows that are left, and one more, is enough.
pub mod Agent
pub mod Audit
pub mod Base
pub mod Editor
pub mod Exec
pub mod Hosts
pub mod Jobs
pub mod Policy
pub mod Pool
pub mod Safety
pub mod SafetyNet
pub mod Search
pub mod Secrets
pub mod Session
pub mod Shell
pub mod Tests
pub mod Transfer
pub mod Tunnels
