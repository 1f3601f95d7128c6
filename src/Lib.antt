-- ===== src/Lib.antt =====
-- A model of the JavaScript packages under profile/packages of this repository, and what holds of it.
--
-- The format package (profile/packages/format/src) turns texts into the values of tagged arguments and
-- back. Each source file is a module of Format: errors.mjs is Errors, util.mjs is Util (its bytes as hex
-- are Util/Hex), amount.mjs is Amount, principal.mjs is Principal (with Crc and Base32), and bytes.mjs is
-- Bytes (with Base64, and UTF-8 in Utf8 and Utf16, since the platform's TextEncoder and fatal TextDecoder
-- are part of the language's library), account.mjs is Account, subaccount.mjs is Subaccount, of
-- time.mjs the units are Time/Units, the calendar Time/Civil, the texts of times and durations
-- Time/Rfc3339 and Time/Duration, and the functions on tagged values Time/Tags; resolveName of names.mjs is
-- in Names, for every normalization of names. Of formatter.mjs, Formatter has a position's tags and
-- arguments, Formatter/Make is formatterFor, and Formatter/Run the functions of a formatter, which is
-- the options that they close over. Blob is toBytes of util.mjs. Chars, Split and Decimal hold what the
-- sources use of JavaScript strings and bigints.
-- A function has its source's name with underscores: parseAmount is parse_amount. A function that may
-- throw returns a Result with the code of the error; messages are left out, since callers switch on the
-- code alone. A string is the list of its UTF-16 code units, a bigint an integer over the native
-- numbers, a byte string a list of numbers below 256. A regular expression is written out as the
-- function that splits a text into its groups. Loops over a string or an array are recursion on the
-- list; the variables that they change are the fields of a record, passed from round to round.
--
-- The reconcile package (profile/packages/reconcile/src/index.mjs) judges, after a send of unknown
-- outcome, the ledger's blocks since the first send. Reconcile/Icrc3 has the values of a block and what is
-- read of them, Reconcile/Expected the transaction that a call leaves (expectedTransaction, which reads
-- accounts through the format package's principal_from_text), Reconcile/Match the comparison
-- (blockMatches, looksLikeIt), Reconcile/Verdict the answer (matchBlocks). Where the source writes
-- undefined for a result, the model has none; byId is the function by_id from indices to blocks; the
-- loops over the indices are recursion on their number.
--
-- The resolver package (profile/packages/resolver/src) is in part in Resolver. Resolver/Graph has the nodes
-- of a contract's type graph and the lookups of iface.mjs, Resolver/Walk its walks and addresses,
-- Resolver/Address the grammar of addresses (address.mjs, on fuel: a segment takes a character), and
-- Resolver/Address/Whole also isAccount and resolveRel.
-- Of subtype.mjs, Resolver/Checker is the state of SubtypeChecker, Resolver/Parts what a rule asks for each
-- field, case, position or method, Resolver/Subtype the rules and sub, Resolver/Service typeSubtype and
-- matchService, and Resolver/Show the rendering of types. Resolver/Rules states Candid's rules apart
-- from the code, with the one a relaxed query adds, and subtyping as the largest relation that they
-- justify, and Resolver/Rules/Strict that of strict queries, by Candid's rules alone; Resolver/Met joins the two.
-- The checker's state is passed along. sub calls itself through the rules: it runs on fuel, and fuel one
-- above maxDepth is enough, since each level counts the depth up. An interface is a number, since the
-- source tells two apart as objects. A reference out of the table throws, as reading a property of
-- undefined does. The words of a message are left out, and so is what show does while one is built.
--
-- An intent template is scanned twice: by parseTemplate of resolver/src/checks.mjs (Resolver/Template),
-- which keeps the placeholders, and by the one of consent/src/template.mjs (Consent/Template), which
-- keeps the parts. Both run on fuel, one more than the text has characters; each round takes one.
--
-- Common holds tests, lists, integers and bit operations over the native numbers, shared by all.
--
-- Not modelled: the rest of the resolver and of the consent package; describe of a formatter; how a
-- Uint8Array of another realm is told from other objects (asUint8Array); and the packages that read
-- files, call canisters or render pages.
pub mod Common
pub mod Consent
pub mod Format
pub mod Reconcile
pub mod Resolver
