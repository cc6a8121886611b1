-- ===== src/Lib.antt =====
-- ise2ise moves configuration from one Cisco ISE deployment to another. It exports objects into a
-- sealed bundle; a pre-flight reads the target and decides, object by object, what an import would
-- do; the import then creates what pre-flight cleared, and never changes what is there. This library
-- models that core: the values that travel, the client that talks to a node, and families of objects
-- with their pre-flight and import.
--
-- The program's parts and their files here:
-- - Json: the decoded JSON objects with str and truthy (endpoints.go), nameList (trustsec.go) and
--   ruleList (policy_sets.go); Json/Links: stripLocal and stripLinks (endpoints.go); Json/Nulls:
--   withoutNulls (ise.go); Json/Equal: the reflect.DeepEqual of driftFields (policy_elements.go).
-- - Message: the sentences that the program prints, as lists of pieces, so that two of them are equal
--   only if they are put together from equal pieces; quoteAll (activedirectory.go), joinOr.
-- - Request, Prog: a function that talks to a node is a program that ends or sends a request and goes
--   on with whatever answer it gets. Prog/Sends and Prog/Returns are the predicates "every request it
--   may send" and "every value it may end with"; nothing is assumed of the node.
-- - Ise (ise.go): Errors (APIError, isDuplicate, isCSRFFailure), Decode (searchResult, unwrap,
--   decodeList), Calls (ersCreate, ersPut, openAPICreate, ...), Paging (ersList, openAPIList), Lookup
--   (ersGetAll, stubsByName, nameResolver), Csrf (do, attempt and fetchCSRF, one layer below: the
--   messages on the wire, with the client's token as the state).
-- - Sort, Marker, Marker/Tag, Drift (policy_elements.go): sorted keys, the import marker in a
--   description (stripImportMarker, tagDescription), driftFields; mine (policy_sets.go).
-- - Report (endpoints.go): PreflightItem, PreflightReport.add and ImportResult.
-- - TrustSec (trustsec.go): Objects and Cell hold the helpers on groups, SGACLs and egress cells;
--   Preflight is preflightTrustSec, Apply is applyTrustSec, Export is ExportTrustSec, where Known is
--   about the names that nameResolver gives, Carried about one cell and Cells about all.
-- - PolicySets (policy_sets.go): Conditions is the walk over a condition's tree, References the checks
--   of checkPolicySetReferences and checkRuleReferences, Names is freeSetName, Clean is cleanRules,
--   Rules and Apply are applyPolicySets with createAuthRule and createAuthzRule, Export is
--   ExportPolicySets.
-- - PolicyElements (policy_elements.go): checkAuthProfileRefs, checkIdStoreSequenceRefs,
--   extractAncestors and dictionaryAttrLookup.
-- - Endpoints (endpoints.go): Refs is refToName and nameToRef, Preflight the part of Preflight about
--   endpoint identity groups and endpoints; the upper case in normMAC is a parameter. Usage is
--   scanPolicyUsage, Listing is fetchEndpoints and ListEndpointGroups. Prog/Tells is Prog/Returns with a note of whether a request has failed.
-- - Texts, Translate (translate.go): columnLabel, labelKey, secretLabel and isMasked are in
--   Translate/Labels, the pairing of the columns in Translate/Columns, the rows in Translate/Rows.
-- - IdentitySources (identitysources.go): Secrets is dropClientSecret and restStoreManualSteps, Drift
--   driftFieldsIdentitySource, Export, Preflight and Apply the three passes over the family; Import is
--   how an import counts the answer to a create.
-- - Bytes, Bundle (bundle.go): SealBundle and OpenBundle over a record of functions that stands for the
--   cryptography and JSON; Bundle/Sealed says what a sealed file is. Ise/Version and Ise/Probe (ise.go):
--   iseVersion and ProbeDeployment.
-- - ActiveDirectory (activedirectory.go): Groups is the export and what is compared of two join points,
--   Preflight preflightADJoinPoints, with Filed and Clear on what it has read of the target, Apply applyADJoinPoints, to which fmt's printing is a parameter.
--
-- Functions that take a Go map and change it return the changed value here; the code clones an object
-- before it changes one that is used again. A missing key and Go's zero value are written out. A
-- panic is a value of its own, but for one: a nil map is the empty one here, and the panic of a write to
-- it, where a node answers null for an object, is left out. The only loops with a bound are those over pages, where the code itself
-- stops after 1000 pages with an error, and over the 99 names of freeSetName: the fuel is the code's
-- own bound.
--
-- Not modelled: the HTTP transport with its TLS, cookies and time limits, and the goroutines of
-- ersGetAll and ProbeDeployment, whose requests stand in order here; the progress lines; the time of
-- day, which is a parameter of tagDescription and NewBundle; the cryptography of the bundle, the reader
-- and writer of encoding/csv and the printing of %v, which are parameters; and, so far, the export and
-- the import of endpoints, the pre-flight of policy sets, the export, pre-flight and import of policy
-- elements, the certificate families, and the HTTP handlers of api.go and main.go.
pub mod ActiveDirectory
pub mod Base
pub mod Bundle
pub mod Bytes
pub mod Drift
pub mod Endpoints
pub mod IdentitySources
pub mod Import
pub mod Ise
pub mod Json
pub mod Marker
pub mod Message
pub mod PolicyElements
pub mod PolicySets
pub mod Prog
pub mod Report
pub mod Request
pub mod Sort
mod Tests
pub mod Texts
pub mod Translate
pub mod TrustSec
