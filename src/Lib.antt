-- ===== src/Lib.antt =====
-- A verification of the encryption gateway's TypeScript service. Paths are those of the
-- repository.
--
-- A client of the gateway sends an encrypted request; the gateway checks it and calls an upstream
-- API for it. Clients may enrol a device key with a hardware attestation, and sign for a route
-- with that key.
--
-- The parts, and the files that model them:
--   * src/attestation/kv.store.ts: Kv/Port is the interface KvStore, with the laws that its clients
--     rely on; Kv/Memory is the class MemoryKvStore (lookup, write, evictIfFull, get, set,
--     setIfAbsent, getDelete, delete) and Kv/Memory/AsPort fills the interface with it; Kv/Spec is
--     what a store promises, as a relation. KvKeeps of Kv/Port are the laws of a store that forgets
--     nothing, which a store that evicts does not keep (Attestation/Devices/Evicted); Kv/Upstash/
--     Durable fills them. Kv/Upstash is the class UpstashKvStore (command and the
--     same operations) over a service with a state of its own.
--   * src/attestation/challenge.store.ts: Attestation/Challenges (issue, consume).
--   * src/attestation/device.registry.ts: Attestation/Devices (get, enrol, has, delete).
--   * src/attestation/attestation.service.ts: Attestation/Chain (verify, verifyChain in its six
--     numbered steps, verifySignature). Attestation/Crypto holds what it takes from node:crypto and
--     the @peculiar packages.
--   * src/attestation/attestation.controller.ts: Attestation/Controller (challenge, enroll, verify),
--     which calls the challenges, the chain and the devices over one store.
--   * src/attestation/device-signature.guard.ts: Attestation/DeviceGuard (check, canActivate).
--   * The handlers of the controller and the guard side by side: Attestation/Concurrent. A request
--     is where its code waits for the store, with what it holds there (Handler); `resume` runs it to
--     its next wait, and a step of the relation Step lets any request of a pool do so. Between two
--     waits no other code runs in Node.js, and a command of the service behind UpstashKvStore is one
--     step of that service.
--   * src/attestation/google-roots.ts: Attestation/GoogleRoots (getGoogleRootKeys).
--   * src/attestation/attestation.module.ts: Attestation/Module (policyFromConfig,
--     devicePolicyFromConfig, kvStoreFromConfig and the functions that catch their errors).
--   * src/common/config.ts: Config (positiveInteger, strictBoolean, enumValue), which the
--     constructors read: Proxy/Service/Setup, RateLimit/Setup, Replay/Setup and Encryption/Keys.
--   * src/main.ts: Main (parseTrustProxy, securityHeaders, parsePort, bootstrap).
--   * src/common/payload.ts: Payload (parsePayload, normalizeRequestBody).
--   * src/common/replay-protection.service.ts: Replay (assertFresh, sweep, parseTimestamp), on the
--     payload that Payload returns.
--   * src/common/client-ip.ts: ClientIp (clientIpKey), the key of a client in
--     src/common/rate-limit.guard.ts: RateLimit (canActivate, sweep).
--   * src/proxy/target-policy.ts: TargetPolicy (the parsers of both lists, assertAllowed).
--   * src/proxy/proxy.service.ts: Proxy/Headers (normalizeHeaders, sanitizeResponseHeaders),
--     Proxy/Service (forward, validateAndBuildUrl).
--   * src/encryption/encryption.service.ts, src/encryption/aes.util.ts: Encryption (decrypt,
--     encryptResponse, seal, open), Encryption/Keys (keyIdOf, the constructor, onModuleInit,
--     loadPrivateKeys, describeKey, getPublicKeyPem, getPublicKeyInfo), Encryption/Aes
--     (AesUtil.encrypt, AesUtil.decrypt).
--   * src/proxy/proxy.controller.ts: Proxy/Controller (handleGateway), which decrypts a request,
--     checks with Replay that it is fresh, forwards it by Proxy/Service under TargetPolicy, and
--     encrypts the reply. Its state is the replay cache and the list of requests sent.
--   * src/app.module.ts: App (serve), the rate limit before the gateway's handler.
--   * clients/web/gatewayClient.js: WebClient (toB64, the constructor, send, result). `send` is two
--     functions, the sealing of a request and what is done with the reply; WebClient/EndToEnd puts
--     the gateway between them.
--   * test-client.js: NodeClient (getServerKey, the sealing of the request, what is done with the
--     reply); NodeClient/EndToEnd puts the gateway between them.
--   * scripts/generate-keys.js: Keygen (opt, rel, the whole script over a map of files);
--     Keygen/Startup starts the gateway with what it prints.
--
-- Prelude, OrderedMap (JavaScript's Map), JsText (methods of strings), Runtime (JSON values and
-- what Node.js gives) and Exec (asynchronous methods over a store) are shared. Tests holds concrete
-- instances and a run of each theorem.
--
-- State is passed explicitly: a call takes the state before it and returns its result with the
-- state after it, also where it throws. The times of Date.now() and random bytes are arguments; an
-- operation of MemoryKvStore takes one time for the calls of Date.now() that it makes without a
-- wait in between. Times are natural numbers of milliseconds. Strings are lists of code units,
-- buffers lists of bytes. Infinity, undefined and null are `none` where the code treats them alike.
-- JSON.parse and JSON.stringify, Base64, case mapping, isIP, the URL parser, numbers of JSON and
-- all cryptography are parameters; what a theorem needs of them is among its hypotheses.
--
-- Loops are recursive on the list that they go through. Fuel is used in two places. number_digits
-- of JsText writes a number in a base: 4 digits for a hexadecimal group, whose value is below
-- 65536, and 20 for a decimal number, which is enough below 10 ^ 20 (JsText/Numerals). The loop of
-- toB64 goes over chunks of the bytes, with fuel for one round for each byte (WebClient/Binary).
--
-- Not modelled: the text of the root certificates, which is an argument, the decorators of the
-- request bodies and routes, which class-validator and NestJS interpret, logging, the token and
-- time limit of Upstash requests, what the scripts print besides the values of their reports, the
-- clients in Kotlin, Dart and Swift, a throw where a public key is exported, the place that a plain
-- object gives to names that are numbers and to `__proto__`, mock-upstream.js, which gives one
-- fixed answer, and scripts/show-examples.js, which prints fixed examples.
pub mod Prelude
pub mod OrderedMap
pub mod Keygen
pub mod NodeClient
pub mod Kv
pub mod Exec
pub mod Runtime
pub mod Config
pub mod Attestation
pub mod Payload
pub mod Encryption
pub mod Replay
pub mod JsText
pub mod ClientIp
pub mod RateLimit
pub mod TargetPolicy
pub mod Proxy
pub mod Main
pub mod WebClient
pub mod App
pub mod Tests
