-- ===== src/Lib.antt =====
-- rx-ui is a web panel for the xray core: a Rust backend keeps the inbounds, and a TypeScript front end
-- edits them. The files here model the front end's own logic, foremost the path that an inbound takes
-- through its form: the backend's typed payload is flattened into form values, the operator edits them
-- while guards snap impossible choices back, and the values are folded into the payload again, which
-- replaces every layer of the stored inbound. What must hold is that this trip neither loses nor
-- invents settings.
--
-- Files and code:
--   Base, Js            shared helpers; the JavaScript strings, numbers, objects and JSON values of the code
--   Api                 frontend/src/api/types (inbound, outbound, protocol, transport, security,
--                       finalmask, settings, client)
--   Api/MaskSupport     frontend/src/api/finalmaskSupport.ts: allowed_final_masks is
--                       `useAllowedFinalMasks`, final_mask_guard the effect of `useFinalMaskGuard`
--   Inbounds/Form       frontend/src/pages/Inbounds/form/types.ts
--   Inbounds/Defaults   frontend/src/pages/Inbounds/form/defaults.ts
--   Inbounds/Values     `orNull`, `orNullNum`, `collapseHeaders` and the `x || null` idioms of
--                       frontend/src/pages/Inbounds/form/adapters.ts, of which the next files model
--                       the rest
--   Inbounds/Ranges     `parseRanges` and its inverse rendering
--   Inbounds/FinalMask  `hydrateFinalMask` and `buildFinalMask`
--   Inbounds/Protocol   `buildProtocol` and the protocol blocks of `inboundToForm`
--   Inbounds/Quic       `hydrateQuicParams` and `buildQuicParams`
--   Inbounds/Transport  `buildTransport`, `buildMasquerade` and the transport blocks of `inboundToForm`
--   Inbounds/Security   `buildSecurity` and the security blocks of `inboundToForm`
--   Inbounds/Sniffing   `buildSniffing`, `buildSockopt` and the last blocks of `inboundToForm`
--   Inbounds/Adapters   `inboundToForm`, `formToCreate` and `formToUpdate` from these layers
--   Inbounds/Guards     frontend/src/pages/Inbounds/form/registry.ts: `PROTOCOL_REGISTRY` and the effect
--                       of `useProtocolGuards`, as one round on the fields that it reads and writes
--   Outbounds/Form      frontend/src/pages/Outbounds/form.ts: OutboundFormValues and, in its children, the
--                       builders, `formToOutbound` and `outboundToForm` (Form/Adapters)
--   Outbounds/Link      frontend/src/pages/Outbounds/parseLink.ts: `parsePort`, `splitHostPort` and
--                       `parseHysteriaLink`; Link/Vless has `parseOutboundLink` and the VLESS branch,
--                       Link/Values what it sets, Link/Extra `applyXhttpExtra` and `applyFinalMask`;
--                       Link/Query and Vless/Spelling say how a query spells given values
--   Outbounds/Paste     `applyLink` of frontend/src/pages/Outbounds/OutboundForm.tsx, for Hysteria links
--   Panel/LoadState     frontend/src/api/loadState.ts: `useLoadState`
--   Panel/Routing       frontend/src/lib/routingReport.ts (`reportRouting`, on the keyed messages) and
--                       `strategyClashes` of frontend/src/lib/dnsPresets.ts
--   Panel/RuleOrder     frontend/src/components/RoutingRulesField.tsx: the evaluation order that is derived
--                       from the saved one, and the moves, toggles, deletions and saves on it
--   Panel/RuleForm      the rule dialog and the row summary of the same file
--   Panel/DnsServers    frontend/src/components/DnsServersField.tsx: roles, addresses, moves
--   Panel/Settings      frontend/src/lib/panelSettings.ts: `mergePanelSettings` and its defaults, and
--                       `needsIpv4` of frontend/src/lib/builtinOutbounds.ts
--   Panel/SaveAll       frontend/src/pages/Settings.tsx: `saveAll`, which sends the merged rows
--                       one at a time
--   Panel/Uuid          frontend/src/lib/id.ts: `uuid`
--   Panel/Clients       frontend/src/pages/Clients.tsx: quotas between bytes and the form, and
--                       `buildSubscriptionUrl`
--   Panel/ClientGroups  `clientGroups` of the same file: the rows of the table
--   Panel/Userinfo      `parseUserinfo` of frontend/src/pages/SubscriptionLanding.tsx
--   files named Tests   concrete runs
--
-- How the parts meet. The outbound form takes the FinalMask fields and the XHTTP layer of the inbound
-- adapters; a pasted link becomes form values, which the outbound adapters then fold into a payload; the
-- routing editors work on the rules that the panel settings hold.
--
-- How the model stands for the code. A string is the list of its UTF-16 code units. A number is an
-- integer or NaN: fractions, infinities and the rounding past 2^53 are outside the model. An object with
-- string keys is the list of its entries in the order of insertion; that integer-like keys come first is
-- outside it. `toLowerCase` acts on the letters of ASCII. A field of type `T | null` is an Option, a
-- union tagged by `kind` a data type, and the flat FormValues one record for each prefix of its fields.
-- The only fuel is that of the decimal digits of n, which is n + 1 and so more than their count. A quota
-- in the form is a fraction of natural numbers. The effect of the guards is run round by round, each on
-- the values that the last one wrote, as React runs it again after every write, with all four fields
-- mounted. Positions in a list are natural numbers.
--
-- A layer is called settled when it is as the form sends it: text trimmed and not blank or else null,
-- no NaN, header names distinct, and so on; each module says what its layer asks for.
--
-- Parameters: `decode` is decodeURIComponent, `search` URLSearchParams, `json` JSON.parse, `read` the
-- conversion `Number(text)`, `le` the order of localeCompare; identifiers, random bytes, times and the
-- statistics of who is online are arguments as well, and `put_settings` is the row after the
-- backend has stored an update; what it refuses is an outcome of the save. What a
-- theorem asks of them stands in its statement.
--
-- Not modelled: the backend, whose stored inbound and matrix of masks are parameters; React, antd,
-- react-query and axios; rendering, translations, styles and the DOM; VLESS links pasted into the form; the
-- stores; the fields of the settings page, and what the subscription page does with the
-- traffic that it reads.
pub mod Base
pub mod Js
pub mod Api
pub mod Inbounds
pub mod Outbounds
pub mod Panel
