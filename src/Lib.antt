-- ===== src/Lib.antt =====
-- MegooPM's browser client: the logic that its pages share, under frontend/src.
--
-- The client is a Next.js application that talks to the backend over HTTP. A guard
-- in front of the pages redirects visitors without a session (proxy.ts). The
-- session is two cookies (lib/auth/session.ts), which the API client puts on each
-- request (lib/api/client.ts) and the auth context keeps alive or ends
-- (lib/auth/context.tsx). The pages hold forms that validate what is typed and
-- build the bodies of requests (components/proxy-hosts/lib.ts,
-- components/domains/lib.ts, components/access-lists/lib.ts,
-- components/settings/lib.ts), and live views: the log lines of a socket
-- (components/live-logs), the events of a stream (lib/events.ts) and the security
-- dashboard (components/security/lib.ts), beside the words that tables show
-- (components/certificates/lib.ts, components/audit-log/lib.ts). The editor of
-- custom pages sends its document to an assistant without the images and puts them
-- back (components/custom-pages). A long task is polled
-- (lib/api/resources/tasks.ts), and what goes wrong is put into words
-- (describeError, components/nginx-status/lib.ts, lib/auth/webauthn.ts).
--
-- Files, and the code that they model (paths under frontend/src):
--   Text, Number, Regex, Json: what the client uses of JavaScript's strings,
--     `parseInt`, regular expressions and parsed JSON.
--   Domains: components/domains/lib.ts. `domain_re` is DOMAIN_RE; `parse_domains`
--     and `add_domains` are the functions of those names; Tags is the state of the
--     input, domain-tags-input.tsx.
--   Session: lib/auth/session.ts and proxy.ts. `Jar` is document.cookie as a
--     browser keeps it, `persist_session` and `clear_session` write it, `proxy` is
--     the guard. Session/Tokens has the interface `TokenStore`, which Auth takes.
--   Accounts: lib/auth/recent-accounts.ts. `Storage` is what localStorage holds.
--   ProxyHosts: components/proxy-hosts/lib.ts. `Form` is ProxyHostFormState;
--     State, Addresses, Checks and Payload have stateFromHost, isIpOrCidr,
--     validateForm and buildPayload.
--   LiveLogs: components/live-logs/lib.ts, and in Socket the hook of
--     use-live-logs.ts: `State` is its state and refs, `step` what it does at an
--     event of the page, the ticket request, the socket or a timer.
--   Security: components/security/lib.ts, the timeline, the pages, and in
--     Offenders the ranking of sources.
--   Events: lib/events.ts. `parse_frames` is the parser, `happen` the loop of
--     subscribeToEvents, one turn's events at a time. Unsubscribing sets `stopped`,
--     which the loop tests where the code does, after a chunk's callbacks.
--   Client: lib/api/client.ts. `api_fetch` is apiFetch.
--   Auth: lib/auth/context.tsx with the calls of lib/auth/api.ts. `App` is the
--     provider's state, the tokens and the server. A reply may be any JSON:
--     `js_string` is what a cookie holds of a member that is no text, and a member
--     of undefined or null throws.
--   AccessLists: components/access-lists/lib.ts, the dialog of an access list.
--   Settings: components/settings/lib.ts, the forms of the default site, the LLM
--     integration and, in Smtp, mail delivery.
--   Certificates: components/certificates/lib.ts, the expiry levels.
--   AuditLog: components/audit-log/lib.ts, the words of a row.
--   CustomPages: components/custom-pages/lib.ts. `elide_images` and
--     `restore_images` are the functions of those names, over the pieces that a
--     pattern finds (Uris); Sizes and Tag have the sizes and the image tag. Scripts
--     is script-check.ts.
--   Tasks: lib/api/resources/tasks.ts. `World` is the clock, the client, the timer
--     and the signal; `poll_task` is pollTask.
--   Failures: describeError of components/proxy-hosts/lib.ts, and the ApiError of
--     lib/api/errors.ts. Entries is an object as a map.
--   Streams, Users, DnsProviders, NginxStatus: the lib.ts of those components; Users
--     has lib/search.ts and lib/auth/can-write.ts too, and Streams the dialog.
--   Upstreams: components/upstreams/upstream-dialog.tsx. `save_requests` is what a
--     save of the dialog asks of the server, `Pool` the server as it performs it.
--   Redirections: components/redirection-hosts/redirection-host-dialog.tsx.
--   Navigation: config/nav.ts. WebAuthn: lib/auth/webauthn.ts.
--
-- How the program is represented. A text is its UTF-16 code units, a list of
-- numbers. Numbers are exact: the client's are ports, row ids, counts and
-- milliseconds, which JavaScript holds exactly; a result that can be negative is
-- an integer. `null` and `undefined` are `none`. A promise that rejects and an
-- exception are values. React state, refs, timers and sockets are fields of a
-- state, and callbacks are events; an event that finds no timer or socket of its
-- kind changes nothing.
--
-- Parameters. `lower` and `upper` are toLowerCase and toUpperCase, which
-- need the Unicode tables. `encode` and
-- `decode` are encodeURIComponent and decodeURIComponent; where a value is written
-- and read, decoding inverts encoding. `date_parse` is Date.parse, `json_parse`
-- JSON.parse, `type_of` the type of a parsed event. `serve` is the backend, with a
-- state of its own. `compile` is the browser's compiler of a script, which gives a
-- message or none; `comes_after` the order of localeCompare; `to_number` is
-- Number, `string` is String. The world of a poll is one whose clock goes on.
--
-- Fuel. `digits n` has the fuel n + 1, more than the number has digits;
-- `frames_loop` has the length of the text, and each turn takes two units off it.
-- Both are enough: printing and parsing agree, and the parser is equal to its own
-- loop without fuel. `scan` and `scripts_from` have the length of the text, and
-- each turn takes a unit off it. `poll_loop` has a number of turns, and that many
-- intervals end it where they cover the timeout.
--
-- Not modelled: the backend (Python) and the infrastructure; the React views but
-- for the state of some dialogs; dates
-- and times of day as texts; the addresses that the client makes of paths and the
-- bindings of the API's resources; the sizes of data URIs; the ceremony of passkeys
-- and the request of a certificate.
pub mod Prelude
pub mod Text
pub mod Number
pub mod Regex
pub mod Entries
pub mod Domains
pub mod Json
pub mod Session
pub mod Accounts
pub mod ProxyHosts
pub mod LiveLogs
pub mod Security
pub mod Events
pub mod Client
pub mod Auth
pub mod AccessLists
pub mod Settings
pub mod Certificates
pub mod AuditLog
pub mod CustomPages
pub mod Tasks
pub mod Failures
pub mod Streams
pub mod Users
pub mod Upstreams
pub mod Redirections
pub mod DnsProviders
pub mod NginxStatus
pub mod Navigation
pub mod WebAuthn
