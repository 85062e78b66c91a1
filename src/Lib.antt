-- ===== src/Lib.antt =====
-- esp32-remote-boot: a board on the LAN tells a PC which operating system to start. This library is
-- about the repository's own C code (the UEFI program on the PC that schedules the boot, the iPXE command
-- that finds the board, the protocol header that the firmware and the command share, and the framing of
-- the board's VPN connection) and about the policies of the board's firmware, which are C++ headers.
--
-- The parts, by file:
--   Prelude              list, option and number helpers; checked reads of C buffers (`Access`)
--   Uefi/LoadOption      uefi/remote-boot/load_option.h: rb_path_valid, rb_parse_option,
--                        rb_utf16_contains, rb_blocked
--   Uefi/RemoteBoot      uefi/remote-boot/remote_boot.c: read_variable, parse_hex, argument,
--                        validate_entry, schedule_boot, efi_main
--   Discovery            shared/discovery_protocol.h: the query and reply frames and their validators
--   Rbdiscover/Dns       ipxe/rbdiscover/rbdiscover_dns.h: rb_dns_name, rb_mdns_address, rb_mdns_query
--   Rbdiscover/Encoding  ipxe/rbdiscover/rbdiscover.c: rbdiscover_hex, rbdiscover_signature_der
--   Rbdiscover/Client    ipxe/rbdiscover/rbdiscover.c: the attempt and its handlers, and rbdiscover
--   Microlink/Stream     components/microlink/src/ml_stream.h: the incremental frame reader
--   Microlink/H2         components/microlink/src/ml_h2.c: the HTTP/2 frames that are sent
--   Microlink/H2Data     components/microlink/src/ml_h2_stream_data.h: DATA frames in fragments
--   Microlink/JsonScan   components/microlink/src/ml_json_scan.c: the skip functions,
--                        ml_json_object_valid, ml_json_object_get and ml_json_array_next
--   Microlink/Policy     components/microlink/src: ml_io_policy.h, ml_transport_policy.h,
--                        ml_coord_workspace.h and ml_register_scratch.h
--   Firmware/Boot        firmware/include/boot_state.hpp: the boot target of a PC
--   Firmware/Power       firmware/include/power_command.hpp: the command that waits for the agent
--   Firmware/Wifi        firmware/include/wifi_reconnect_policy.hpp
--   Firmware/Limits      firmware/include/multi_pc_policy.hpp: PairingLimits
--   Firmware/Budget, Firmware/Identity
--                        firmware/include/discovery_identity_store.hpp: the rate of signatures, and the
--                        identity in the flash
--   Firmware/Vpn         firmware/include/microlink_policy.hpp and microlink_lifecycle.hpp, and
--                        firmware/src/microlink_runtime.cpp: when the VPN client runs
--   Firmware/Http        firmware/include/http_asset.hpp: sendAssetBytes and PendingConnections
--   Firmware/Discovery   firmware/include/discovery_config.hpp: the blind mode and its preparation
--   Firmware/Sinric      firmware/include/sinric_policy.hpp
--   Firmware/Names       parseId, tokenEqual, validCredential and validOpaqueId
--
-- How they interact: `efi_main` reads its two arguments, and schedules a boot entry whose variable
-- `rb_parse_option` accepts and `rb_blocked` lets pass. `rbdiscover` sends the query of the shared
-- protocol and the mDNS query; an mDNS answer only gives a candidate to ask, and a signed reply of
-- the shared protocol gives the address that is published. On the board, `request` sets the target that
-- `dispatch` gives to the PC when it starts; the VPN client runs between `tick`s, its control connection
-- sends the frames of Microlink/H2, and every connection receives through the reader of
-- Microlink/Stream.
--
-- The model: a buffer is the list of its bytes. In Uefi/LoadOption, Discovery and Rbdiscover a read is
-- checked: `fault` stands for a read outside the buffer, or for a loop that has used up its fuel, and
-- where a theorem says that the code returns, it did neither. In Microlink/JsonScan and in `argument` a
-- position is the list of what is left, so a comparison with the end is a match on the list, and `fault`
-- is fuel only. State is passed on explicitly: the UEFI firmware's, whose services are the record
-- `Firmware`, the attempt's, whose handlers return the calls that they make in order, and the board's
-- records. Machine integers keep their wrap-around where it can occur: the clock and the deadline of iPXE
-- are 64-bit, the round counter and the board's clock 32-bit.
--
-- Fuel: the loops of load_option.h move on by at least one byte at each step, so one more than the
-- size of the buffer is enough, as is one more than the number of units for `argument`. `rb_dns_name`
-- has its own bound of 128 steps, and the loops over routes, questions and records count down. Each
-- item of a JSON array or object passes one byte at least, so one more than the bytes left is enough;
-- the depth counts down from 33. The policies of the firmware have no loops but those over lists;
-- `sendAssetBytes` counts its turns by the answers that its callbacks give.
--
-- Parameters: the firmware's services (`Firmware`), SHA-256 and ECDSA (`Crypto`), and iPXE's allocator,
-- random source, settings, sockets and inet_aton (`Platform`, and the argument `stored`); what the VPN
-- library and its gate answer (`StartOutcome`, `Room`); what the writes, the clock and the clients of the web server
-- answer (`Turn`, and functions on clients); the flash and the cryptography of the identity (`Services`).
--
-- Not modelled: the firmware's handlers over JSON, its servers and its storage of the configuration; the agent, the installer, the web
-- pages and the build; the copy of the MicroLink library and the other network libraries under components/,
-- but for the HTTP/2 frames that the readers are stated on; the text that the programs print; iPXE's
-- tables of interfaces and commands, and its wait for the job.
pub mod Prelude
pub mod Uefi
pub mod Discovery
pub mod Firmware
pub mod Rbdiscover
pub mod Microlink
