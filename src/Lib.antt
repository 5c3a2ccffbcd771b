-- ===== src/Lib.antt =====
-- Looksee: the decisions of the monitoring engine (engine/src), which probes, agents and devices
-- report to and which raises alerts.
--
-- How the parts interact. The scheduler starts the checks that are due, within limits, and hands
-- those of sites with a collector to it. A probe's outcome passes the thresholds and, if it is a
-- timeout, the softening of timeouts; it is then recorded: the check's row, flap detection, the
-- checks that recover together with it, and the alert rules, which open and close incidents and
-- notify channels. Maintenance windows silence checks meanwhile. A one-minute timer reminds and
-- escalates. Groups of the inventory scope maintenance windows and exclusion lists, which say
-- what a check ignores. Beside this, the receivers take syslog and flow records from devices, the
-- calculator works out formulas over checked values, and the security rules watch sign-ins and
-- requests; one-time codes guard the sign-in, and what clients send is cleaned for the database.
--
-- Which file models which part (paths from the repository's root):
--   Thresholds      engine/src/services/thresholds.ts: worst, evaluateValue, applyThresholds
--   Timeouts        engine/src/services/timeouts.ts: timeoutsBeforeDown, judgeTimeout; its child Pattern
--                   is TIMEOUT_PATTERN
--   Exclude         engine/src/services/probes/exclude.ts: globMatch, nameExcluded, textExcluded; Items kindsForType
--                   and excludeItems
--   Exclusions      engine/src/services/exclusions.ts: exclusionsFor, withExclusions and the cache of lists
--   Maintenance     engine/src/services/maintenance.ts: windowIsActive, windowAppliesTo; Cache is the
--                   15 s cache with the steps of activeWindows, isInMaintenance and activeMaintenance
--   CheckTypes      engine/src/db/checkTypes.ts: the registry; Versions is versionAtLeast
--   Groups          engine/src/services/groups.ts: Inventory loadUniverse, Rules matchesRules, Saving
--                   validateRules, Members resolveGroup, expandToChecks and checkIdsForGroups
--   Alerting        engine/src/services/alerting.ts: Tables the rows (engine/src/db/schema.ts), Incidents
--                   evaluateAlertRules and notify, Record recordCheckResult, resolveCheck and
--                   resolveFollowers, Timer processOpenAlerts
--   Scheduler       engine/src/services/scheduler.ts: runDueChecks and runOneCheck as steps on the sets of
--                   running checks; Due the due checks, takeCollectorChecks and autoRecoverPushed
--   Receivers       engine/src/services/receivers/core.ts: Rate underRateLimit, Utf8 chunk.toString("utf-8"),
--                   Framing syslog over TCP,
--                   Flows FlowAggregator, Netflow parseNetflowV5 (engine/src/services/receivers/flows.ts)
--   Security        engine/src/services/security.ts: recordSecurityEvent with evaluateRules, isBlocked,
--                   blockIp, lockedOut; Gate engine/src/middleware/securityGate.ts
--   ScriptOutput    engine/src/services/scriptOutput.ts: evaluateScriptOutput
--   TwoFactor       engine/src/lib/totp.ts: Base32, Codes totpCode, totpStep and consumeTotp
--   StripNul        engine/src/lib/stripNul.ts: cleanString, truncate, and Json stripNul
--   Expression      engine/src/services/probes/expression.ts: Tokens tokenize and evaluateExpression, the
--                   parser in Expression itself
--   UserAccounts    engine/src/services/userAccounts.ts: cleanUsers, Changes diffUsers, Judge
--                   evaluateUserAccounts
--   SiteNetworks    engine/src/services/siteNetworks.ts: parseRange, cleanRanges and siteForAddress
--   HostChanges     engine/src/services/endpointMetrics.ts: evaluateReboot and evaluateChange
--   Calculated      engine/src/services/calculated.ts: probeCalculated, over Expression
--   Prelude         the shared names: numbers, texts as lists of UTF-16 units, lists and Boolean tests
--   Tests           runs on concrete inputs, and the theorems at inputs that meet their hypotheses
-- The other files prove what their names say of the part that they stand under.
--
-- State and time. A database table is a list of records with the columns that decide something; a
-- function that reads and writes tables takes the state and returns the new one. One call sees
-- one instant, an argument in milliseconds. Steps of the scheduler and of the window cache are
-- data types, since their order is not fixed. JavaScript numbers are native naturals where they
-- count or are whole; in Thresholds they are the parameter Numbers, and in Expression the
-- parameter Arithmetic. Lower-casing, time zones and the matching of addresses against lists are
-- parameters too.
--
-- Fuel. The wildcard matcher has (|name| + 1) * (|pattern| + 1) rounds, the loop over a
-- connection's buffer one round for each unit of it. Recording a result has one level for each
-- follower that may recover in turn; a security event has two, its own and that of a block. The
-- parser of expressions has eight for each token and each rule its rank, the tokenizer one for
-- each unit. Where fuel runs out a function returns `none`, except for the loop over the buffer,
-- which then stops.
--
-- Not modelled: the dashboard (dashboard), the agents (agent), the routes, the probes, which are
-- network clients, the senders of notifications and their texts, log lines, and the services of
-- the engine that are not named above.
pub mod Prelude
pub mod SiteNetworks
pub mod StripNul
pub mod Thresholds
pub mod Timeouts
pub mod TwoFactor
pub mod UserAccounts
pub mod Exclude
pub mod Groups
pub mod Maintenance
pub mod CheckTypes
pub mod Alerting
pub mod Scheduler
pub mod HostChanges
pub mod Calculated
pub mod Receivers
pub mod ScriptOutput
pub mod Security
pub mod Exclusions
pub mod Expression
pub mod Tests
