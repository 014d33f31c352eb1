-- ===== src/Lib.antt =====
-- Merossity polls Meross devices on the local network, keeps their state, streams it to a web
-- application, and lets the application switch them. This library models the program's core.
--
-- Poller models packages/core/src/api/state-poller.ts, the service that polls. Types has its
-- data, Backoff the intervals between polls (`failureBackoffMs`, `withJitterMs`,
-- `nextIntervalMs`), Change the comparison of two states (`hasMaterialStateChange`), Service the
-- state of `StatePollerServiceImpl` with its subscribers (`pushToSubscriber`, `broadcast`,
-- `createStreamResponse`), Keys the sets of polls under way, Reading what a poll makes of a
-- response, Digest the extractors of packages/core/src/api/shared.ts that read it, Poll the method
-- `pollDevice`, PollNow the workers of `pollNow`, Recovery `tryResolveHost`, Telemetry `pollTelemetry`,
-- Tick the loop that starts the polls, Stream the reader's side of the messages, and Operations all
-- that the service does, in any order. An
-- asynchronous method is split at its awaits into functions on the service's state, and other
-- methods may run between the parts. What it waits for (the configuration, the key, the answer
-- of the device) is an argument. `Date.now()` and `Math.random()` are arguments too.
--
-- Web models the state machines of the web application: Web/Devices
-- apps/web/src/state/devicesMachine.ts, with the actions in Actions, the parallel machine in
-- Machine, the actor `streamEvents` in Stream and the parsers of what it reads in Parsers; Web/Auth
-- apps/web/src/state/authMachine.ts; Web/App apps/web/src/state/appMachine.ts. An event is a
-- constructor, the answers of the invoked actors included, and a step gives the next machine and what
-- it does outside.
--
-- Lan/Address models the IPv4 addresses and ranges of
-- packages/core/src/meross/lan/ping-sweep.ts and discovery.ts, Lan/Mac
-- packages/core/src/meross/lan/mac.ts, and Lan/Scan the workers of `resolveHostByUuidScan` in
-- discovery.ts.
--
-- Api models the handlers of packages/core/src/api for devices. Client has what they do
-- outside: a handler is a function from the log of the requests before it to its reply and the log
-- after it, and the network answers a request by that log. Rules finds a rule in an answer
-- (`asTimerRuleRecord`), Timers patches one (patch-device-timerx.ts), Removal deletes one
-- (delete-device-timerx.ts, delete-device-triggerx.ts), and Switching has toggle-device.ts,
-- set-device-light.ts, set-device-timerx.ts and set-device-triggerx.ts. The handlers that read are in
-- States (get-device-state.ts, get-device-states.ts) and Schedules (get-device-timerx.ts,
-- get-device-triggerx.ts), which asks for the rules of a digest one by one. Hosts has resolve-host.ts,
-- whose look-ups are an argument and which ends with the configuration that it leaves, and Discovery the
-- workers of discover-hosts.ts, whose answers may come in any order. JavaScript's conversions of a
-- text or an object to a number or a text, and its upper and lower case, are parameters.
--
-- Cloud models packages/core/src/meross/cloud/http.ts and the handlers that keep its results. Domains
-- has `stripScheme`, Http the requests and their redirects (`postWithRedirect`), SignIn the login over
-- the domains (`merossCloudLogin`), Devices the list of the devices (`merossCloudListDevices`), and
-- Login the handlers of login-cloud.ts, refresh-cloud-devices.ts and network-cidr.ts on the
-- configuration. What the cloud answers is a function of the domains that were asked before.
--
-- Inventory models packages/core/src/meross/inventory.ts, the two groups of devices.
--
-- Web/Views models what the components of apps/web/src/views/devices compute and keep: Card the card of
-- a device and the tabs of its dialog, Timers the pane and the editor of its timers (both DeviceCard.tsx),
-- and Lights the values, the drafts and the requests of SmartLightControls.tsx. A callback that waits is
-- split at its awaits, as the methods of the poller are.
--
-- Telemetry models packages/core/src/api/telemetry-db.ts, whose tables are lists of rows and whose
-- queries are functions of them, and get-telemetry-power-history.ts, which answers the samples of a
-- channel in buckets of time. Buckets is about the times of the buckets and Asked about the answer.
--
-- Json has the values of a parsed JSON text. Prelude has what the parts share. Tests applies the
-- theorems to concrete inputs.
--
-- Representation: `0 | 1` is a Boolean; a JavaScript number that is only stored and compared is an
-- integer multiple of 2^-1074, the least positive double; milliseconds, channels and addresses are
-- natural numbers; a Map or an object with changing keys is an association list in the order of
-- insertion; a map of promises is the list of its keys. Interval arithmetic is done on exact
-- fractions where the source rounds doubles. Loops are by recursion on lists or on a count of
-- steps that are left, so no fuel can run out.
--
-- Not modelled: the HTTP layer and routes, the signature and the headers of a request, the lines for
-- debugging, the details of an error, the configuration file, the latest sample of the telemetry
-- database, the readings of electricity and consumption, the ping sweep and the ARP table, the command
-- line, the rendering of the views, and the development tools in packages/qa and packages/new.
-- The timers that drive `tick` and the heartbeats are the choice of which operation comes next.
pub mod Api
pub mod Cloud
pub mod Inventory
pub mod Json
pub mod Lan
pub mod Poller
pub mod Prelude
pub mod Telemetry
pub mod Tests
pub mod Web
