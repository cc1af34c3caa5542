-- ===== src/Lib.antt =====
-- A verification of the core of the ISO 11783 CAN stack: the layers between a CAN frame and the
-- messages of an application.
--
-- The stack is one network manager (isobus/src/can_network_manager.cpp), which the application
-- calls to send a message, and whose update hands received frames to the protocols and callbacks.
-- Each control function on the bus has a 64 bit NAME and, after an address claim, an address. A
-- message of up to 8 bytes is one frame; one of 9 to 1785 bytes goes through the transport
-- protocol (TP), a longer one through the extended transport protocol (ETP), in segments that the
-- receiver clears one by one. Messages of NMEA 2000 go through the fast packet protocol, which the
-- application calls itself. Each internal control function may have a protocol that answers
-- requests for PGNs, and a diagnostic protocol that keeps its trouble codes and sends them. What is
-- modelled, and where:
--
--   Timing           utility/src/system_timing.cpp
--   Identifier       isobus/src/can_identifier.cpp
--   Name             isobus/src/can_NAME.cpp; Name/Filter: isobus/src/can_NAME_filter.cpp and the
--                    filters of isobus/src/can_partnered_control_function.cpp
--   Message          isobus/src/can_message.cpp, isobus/src/can_managed_message.cpp
--   ControlFunction  isobus/src/can_control_function.cpp
--   Network          isobus/src/can_network_manager.cpp: send_can_message, send_can_message_raw and
--                    construct_frame
--   Transport        isobus/src/can_transport_protocol.cpp: process_message in Transport/Receive,
--                    the control frames in Transport/Frames, protocol_transmit_message, update and
--                    update_state_machine in Transport/Transmit
--   AddressClaim     isobus/src/can_address_claim_state_machine.cpp
--   Tables, Claims   isobus/src/can_network_manager.cpp: update_address_table, add_control_function
--                    and get_control_function; update_control_functions
--   PgnRequest       isobus/src/can_parameter_group_number_request_protocol.cpp
--   FastPacket       isobus/src/nmea2000_fast_packet_protocol.cpp: process_message in
--                    FastPacket/Receive, send_multipacket_message, update and update_state_machine in
--                    FastPacket/Transmit; the data of a callback, isobus/src/can_callbacks.cpp
--   ExtendedTransport  isobus/src/can_extended_transport_protocol.cpp, laid out as Transport
--   Diagnostic       isobus/src/isobus_diagnostic_protocol.cpp: the lists of trouble codes, the
--                    lamps, the messages DM1 and DM2 (Diagnostic/Messages), DM22 in
--                    Diagnostic/Clearing, the identification messages, and in Diagnostic/Requests
--                    the requests for PGNs, process_flags and what update does before the flags;
--                    set_flag of utility/src/processing_flags.cpp
--
-- The functions have the names of the source. An object is a record and a method takes the object
-- as its last argument and returns the new one; integers are natural numbers with the wrap-around
-- of their type written out where it can happen. A pointer to a control function is a number, or
-- none for a null pointer, and `Env.cf` gives the object. A pointer to a session is the place of the
-- session in the list. `Env` also holds what comes from outside: the clock, read once in a handler;
-- the configuration; the answer of the hardware layer to a frame; and the data chunk callback of
-- the application. What the stack does to the outside, frames and callbacks, is a log. Where C++
-- leaves the behaviour undefined, the log has a fault: a write to a deleted session, a loop over a
-- vector that is erased from, a null pointer followed, a read past the end of a buffer.
--
-- Loops are structural recursion on the list they run over or on the number of rounds that the
-- loop's bounds give, so no fuel is needed: search_address has 120 rounds for the addresses 128 to
-- 247, send_packets and send_frames have one for each packet from the last one sent to the
-- packet count.
--
-- The other files: Prelude (shared names, tests, lists, words), Bits (the laws of the bit
-- operations that fields need), and below each part the modules that are named for what they
-- prove. Examples holds runs at concrete values.
--
-- Not modelled: the new partners, the receive queue and the callbacks of the network manager, the
-- received DM13 (its shifts by more than the width of an int are undefined in C++) and the registry
-- of the diagnostic protocols, the loop over the processing flags, the virtual
-- terminal client; the log output (but for the pointers that ETP follows for it), the mutexes and
-- the threads, and the drivers of the hardware layer.
pub mod Prelude
pub mod Bits
pub mod Timing
pub mod Identifier
pub mod Name
pub mod Message
pub mod ControlFunction
pub mod Network
pub mod Transport
pub mod AddressClaim
pub mod Tables
pub mod Claims
pub mod PgnRequest
pub mod FastPacket
pub mod ExtendedTransport
pub mod Diagnostic
pub mod Examples
