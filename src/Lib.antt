-- ===== src/Lib.antt =====
-- A model of bolty-rs, which provisions and checks NFC payment cards (NTAG424 Bolt Cards), and
-- proofs of what its parts promise.
--
-- The parts, and the files that model them:
-- - crates/bolty-core is the domain logic without I/O.
--   Core.Hex (src/util.rs): decode_hex, decode_hex_into, encode_hex and encode_hex_into.
--   Core.Keys (src/secret.rs, src/uid.rs, src/constants.rs, src/config.rs): keys, UIDs, issuers.
--   Core.Config (src/config.rs): BoltyConfig, the configuration that all front ends share.
--   Core.Crypto: the cmac, aes and cbc crates as an interface with the sizes of their results.
--   Core.ConstantTime (src/picc.rs): constant_time_eq.
--   Core.Derivation (src/derivation.rs): the messages under the issuer key and the key set.
--   Core.Assessment, Core.Issuer (src/assessment.rs, src/issuer.rs): what state a card is in.
--   Core.Picc (src/picc.rs): the p and c parameters of a tap, from the URL to the verified UID.
-- - apps/bolty-esp32 is the firmware.
--   Firmware.Commands (src/commands.rs): parse_command, and parse_pre_dispatch_command in
--   Firmware.Commands.PreDispatch; Firmware.Commands.Words says what the words of a command are.
--   Firmware.Console (src/console_framing.rs): LineAssembler, which makes lines of console bytes.
--   Firmware.Workflow (src/workflow.rs, src/service.rs): dispatch_command over a card service.
--   Firmware.CardService (src/firmware/card_operations.rs, src/firmware/service.rs and
--   src/firmware/utils.rs): the service that fills BoltyService, with burn and wipe in
--   Firmware.CardService.Operations and what only looks at a card in Firmware.CardService.Looks.
--   Firmware.OtaValidity (src/ota_validity.rs): the gate that marks a new image valid.
--   Firmware.OtaHeader (src/ota_header.rs): validate_size and authorize.
--   Firmware.OtaServer (src/ota_server.rs): one push, from its header to the restart.
--   Firmware.Jobs (src/rest.rs, src/firmware.rs): RateLimiter, JobSlot and the worker.
--   Firmware.Auth, Firmware.Requests (src/rest.rs): is_authorized, the JSON of a request and
--   handle_job_submit.
--   Firmware.Button (src/button.rs): ButtonDebounce.
-- - apps/bolty-cli is the command line.
--   Cli.Tool (src/common.rs): the card and the audit log as one state, the authentication retry and
--   its circuit breaker. Cli.Looking: which calls only look at a card. Cli.Wipe (src/wipe.rs):
--   cmd_wipe. Cli.Burn (src/burn.rs, src/provision.rs): cmd_burn, burn_card and burn_provisioned.
--   Cli.Audit (src/audit.rs): the clock and the lines of the audit log.
--   Cli.Provision (src/provision.rs): parse_provision_response and fetch_provision_keys. Cli.Scan
--   (src/scan_keys.rs, src/try_key.rs) and Cli.Testck (src/testck.rs): cmd_scan_keys, cmd_try_key and
--   cmd_testck. Cli.Reader (src/transport.rs): select_reader. Cli.Budget (src/budget.rs): parse_audit.
--   Cli.Diagnose (src/diagnose.rs, and provenance.rs of crates/bolty-core): the classification of a
--   card and of its key.
-- - crates/bolty-ntag does the work on a card (src/lib.rs).
--   Ntag.Link: the library ntag424 as an interface, and the errors. Ntag.Burn: burn, wipe and
--   check_key_versions. Ntag.Inspect: preflight and safe_inspect. Ntag.Probe: f5probe. Ntag.Ndef:
--   parse_ndef_uri. Ntag.Card states what is relied on of a card, Ntag.Steps what one call then does,
--   Ntag.Provisioning and Ntag.Recovery what the calls come to; Ntag.Burned, Ntag.Wiped, Ntag.Reliable
--   and Ntag.Versions hold the theorems.
-- - The readers carry the commands to the card.
--   Reader.Pn532 (crates/pn532-transport/src/lib.rs): Pn532Device over the chip's driver.
--   Reader.IsoDep (crates/iso14443-session/src/lib.rs): PcdSession, with CRC_A in Reader.IsoDep.Crc.
--   Reader.Mfrc522 (crates/bolty-mfrc522/src/lib.rs): activation and Mfrc522Transport.
--   Reader.Pn532.Transport (crates/bolty-pn532/src/lib.rs): Pn532Transport over the device of
--   Reader.Pn532. Reader.Pn7160 (crates/bolty-pn7160/src/lib.rs): Pn7160Transport. Reader.Conformance
--   compares the copies of split_response.
-- A console line goes through Console, Commands and Workflow; a REST job through Auth, Requests, Jobs
-- and Workflow; both end at the card service and at the OTA gate.
--
-- How the code is modelled. Numbers are natural numbers; where a width matters, the wrap-around is
-- written out (ids of jobs, bytes of counters). A `[u8; N]` is a list, with `IsArray N` where its
-- size matters, and a `&str` is the list of its code points, with `len` in UTF-8 bytes. A `Result`
-- is `Result`, with `?` as the bind of a do block; `&mut` is a state that is passed in and
-- returned. A fold over an iterator is structural recursion. Work on a card or a link is an `Act`
-- (Prelude.Act), a function of the state that gives the state back with a `Result`, also when it
-- fails. Fuel is taken by the bitwise lemmas of Prelude.Bits, where the number itself is enough,
-- and by the two loops of PcdSession::exchange that the card can keep going, by asking for a chunk
-- again or for more time: there the answer `none` means that the fuel ran out, and for the chunks
-- one more than the bytes of the APDU and the chunks that the card asks for again is enough.
-- stream_image has as fuel the size of the image, which its loop lowers in every round.
--
-- Parameters, since their code is not in the repository: the crypto crates (Core.Crypto), the
-- bounded strings of heapless (Heapless in Prelude.Text: an append that would pass the capacity is
-- refused and changes nothing), the platform's mark-valid call, the socket and ESP-IDF's update
-- calls (OtaHost), the PN532 driver and its reset pin, the protocol handler and blocks of iso14443
-- (Iso14443), the drivers of the MFRC522 (Mfrc522) and the PN7160 (Pn7160Driver). The library
-- ntag424 in vendor/ is a parameter too (Ntag424), and what is relied on of it and of the card
-- behind it is IsNtag424: a call that succeeds did what its name says, a call that fails may have
-- done it, and it fails only for a wrong key, a write past the end of the file, or a Refusal, which
-- stands for the link and for any other answer of the card, a delay included. In Firmware.Workflow
-- the card service is an interface, BoltyService, which esp32_service of Firmware.CardService
-- fills. A card is its keys, key versions, NDEF file and file settings, and a card that is left as
-- it was has these as they were: the counter of failed authentications and the read counter of
-- dynamic messaging are not part of it. A lock is an argument that says whether it could be taken,
-- and the timer's value is an argument. A string slice inside a character is a panic in the source;
-- the model has it as a separate answer. What activates the reader for the card service
-- (activate_with_delays of Reader.Mfrc522 in the firmware) and the size that a card reports for its
-- file are arguments. The random bytes of the command line (the crate getrandom) are a parameter,
-- and what its commands rely on of a card is IsStill besides IsNtag424: while it is in the field
-- its UID stays, and a call that only looks changes nothing; a failure to draw random numbers
-- counts as one of the link. A line of the audit log is a value with the source's parts, not its
-- text, and the clock is read once for each entry; whether an attempt to open the log file succeeds
-- is a parameter. The parser of JSON (serde_json) and the HTTP client (ureq) of the provisioning
-- answer are parameters.
--
-- Not modelled: logging, the zeroising of secrets, the texts of HTTP responses, the HTTP, WiFi, TLS
-- and BLE stacks, the display, the flash storage and the main loops of the firmware, and
-- apps/bolty-stm32; of the command line its arguments, output, transports and the commands that are
-- not named above; vendor/ntag424 is a copy of another library.
pub mod Cli
pub mod Core
pub mod Firmware
pub mod Ntag
pub mod Prelude
pub mod Reader
