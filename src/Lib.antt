-- ===== src/Lib.antt =====
-- The core of the program solarbot: the links of the rover, the buffers, codes and cipher they stand on,
-- the boards that it reads and drives, and the way from waypoint to waypoint.
--
-- The rover (solarbot/Solarbot.cpp) talks to a remote control over an encrypted command link
-- (solarbot/MasterApp.cpp): a message goes into a frame (solarbot/Frame.cpp), which a CRC guards
-- (solarbot/CRC16.cpp), and the bytes are encrypted in blocks (solarbot/AES128.cpp). The head and
-- the other units hang on serial lines, whose bytes a circular buffer holds
-- (solarbot/Fast512BytesCircularBuffer.cpp) and another CRC guards (solarbot/CRC8.cpp). The driver of the
-- motors (solarbot/ControlUnit.cpp), the power board (solarbot/PowerUnit.cpp), the sensor of lines
-- (solarbot/LineNavigator.cpp) and the receivers of positions (solarbot/GPS.cpp) send lines of text with a
-- checksum. The main loop (solarbot/Solarbot.cpp) reads them, and the navigator (solarbot/Navigator.cpp)
-- heads for the next waypoint, unless the remote controller drives or an object is in the way.
--
-- Which file models which part:
-- - Base and its children: shared names, bounded tests, lists with the out-of-range behaviour written
--   out, and the laws of exclusive or.
-- - Crc16: solarbot/CRC16.cpp, `TABLE` (table) and `calculate`. Crc16/Poly has the division by the
--   polynomial, Crc16/Detect what the CRC detects.
-- - Crc8: solarbot/CRC8.cpp, `CRC_Update` (update), `GetCRC` (calculate). Crc8/Poly has the division.
-- - Frame: solarbot/Frame.cpp, `DecodeFrame` (decode_frame), `GenerateFrame` (generate_frame) and
--   `AddWithEscape`. Frame/Decode has the loop of a client (drive) and the states of a decoder,
--   Frame/Fields, Frame/Complete and Frame/RoundTrip one frame from its bytes back to its fields,
--   Frame/Stream frames one after another, Frame/Encode the size of a frame, Frame/Safe arbitrary bytes.
-- - Aes128: solarbot/AES128.cpp, `SetKey` (set_key), `Encrypt` and `Decrypt` with all steps, the
--   tables in Aes128/Tables. Aes128/Field, Columns, State, Block and Key prove from the bytes up to
--   the whole cipher.
-- - Ring: solarbot/Fast512BytesCircularBuffer.cpp. Ring/Refine has the valid states and the bytes
--   held, Ring/Queue the queue that the class promises.
-- - MasterApp: solarbot/MasterApp.cpp, `Send`, `SendCommandACK`, `Hex2Byte` and the loops on keys.
--   MasterApp/Commands has `ParseRawRx`, `ExecuteCommand` and its handlers on the state of the rover
--   that they change; what the devices and files answer is an input (Outcome). MasterApp/Answers,
--   Modes, Sending and Delivery hold what is proved of them. MasterApp/Server has the rounds of
--   `ThreadServer` for a client, up to the start of its thread.
-- - Telemetry: solarbot/Telemetry.cpp, the rounds of `ThreadServer` for one client (server_round) and the
--   login of `ThreadTelemetricServer` (client_login). Telemetry/Fields reads printed fields back,
--   Telemetry/Handshake has both sides together, Telemetry/Admission who is let in, Telemetry/Frames
--   `SendFrame` (transmit).
-- - Head: solarbot/Head.cpp, `port_read` (receive); Head/Reception what is proved of it.
-- - Text: what the program takes from the C library to print and to read numbers; Text/Decimal reads
--   printed numbers back. Serial: `VerifyChecksum`, which stands in four classes, and the end of a line
--   (seal); Serial/Hex reads the sum of a line back, Serial/Checksum has what the check accepts and refuses.
-- - ControlUnit: solarbot/ControlUnit.cpp, `DirectWrite`, `Write`, `RemoteControllerWrite`, `WriteArm`,
--   `RealRead` and `Read`. ControlUnit/Commands has the commands and who drives, ControlUnit/Reports the
--   reports, ControlUnit/Errors the errors.
-- - PowerUnit: solarbot/PowerUnit.cpp, `Read`; PowerUnit/Reports its reports behind comment lines.
-- - LineNavigator: solarbot/LineNavigator.cpp, `Read` with its tables; LineNavigator/Places a
--   report and the places of the tables.
-- - Gps: solarbot/GPS.cpp, `getLocation` (get_location) and all it calls; Gps/Clock the time of a sentence,
--   Gps/Status the bits of the loop, Gps/Sentences the sentences that it tells apart, Gps/Loop its end.
-- - Navigator: the state of solarbot/Navigator.cpp. Navigator/Load is `LoadWaypoints`, Navigator/Motion `Move`
--   and `GotoWaypoint`, Navigator/Nearest `FindClosestPathPoint`, Navigator/Next `GotoNextWaypoint` and
--   `GetCurrentWaypoint`; the geodesy is in Geodesy. Navigator/Kept, Known and Index show which waypoint the
--   rover heads for.
-- - Solarbot: parts of solarbot/Solarbot.cpp. Solarbot/Settings has the settings, Solarbot/Config
--   `ReadConf`, Solarbot/Detectors the zones that it takes from a file, Solarbot/Obstacles is the stop for objects, Solarbot/Modes
--   the beginning of the modes and the choice in a cycle, Solarbot/Rtk `ReadRTCMThread` and
--   `SendAuthenticationToRTKServer`, Solarbot/Controller `ReadRxControllerThread`; Solarbot/Standing joins the
--   stop for objects, the navigator and the driver board.
-- - Double: the operations on floating-point numbers, a parameter of the modules that compute with them.
-- - The Tests modules have runs on concrete values.
--
-- Numbers: bytes and words are natural numbers, with their wrap-around written out; `size_t` has 64
-- bits. A buffer is a list; a write past its end is lost, a read there gives 0, and the theorems on
-- bounds show where neither happens. `rand()` is a list of draws. `GenerateFrame` draws until a byte is
-- not 0x7E; a list of draws that never gives one is the result `none`. No other function
-- needs fuel: what a loop waits for is a list of reads, and a printed number takes at most as many digits
-- as its value; the loops of AES128.cpp have fixed numbers of rounds (9 for a block, 40 for the key).
--
-- A command with fewer words than it reads, where the source is undefined, and a failed start of the route
-- planner, where an exception drops the rest of the bytes, end the handling of the bytes (lost). A login that
-- does not fit the buffer it is printed into, and an authentication for the server of the corrections that
-- does not, are `none`, and so is a checksum whose digits go on to the end of what is there.
-- A configuration whose reading is undefined (a zone without a detector, or with too few numbers) gives
-- `none`.
--
-- A number read from a text is an integer without bounds; where the boards, the sensor of lines and the
-- configuration store one as an `int`, a `short` or a byte, its low bits stay. Elsewhere an `int` is an
-- integer; where a number is printed into a buffer, the theorems say which numbers fit. The buffer of a line is the list of its bytes; what a read leaves behind
-- its bytes stays from before. A search for a comma that finds none gives `none`: there the source goes on
-- at an address that means nothing.
--
-- Not modelled: the mutexes, what is printed on the terminal, the setting up of sockets and serial ports,
-- the start of threads, image processing, the magnetic model, and of Solarbot.cpp the frame of telemetry, its pace and the eyes in a cycle.
pub mod Base
pub mod Crc16
pub mod Crc8
pub mod Frame
pub mod Aes128
pub mod Ring
pub mod MasterApp
pub mod Telemetry
pub mod Head
pub mod Text
pub mod Serial
pub mod ControlUnit
pub mod PowerUnit
pub mod Double
pub mod Geodesy
pub mod Gps
pub mod LineNavigator
pub mod Navigator
pub mod Solarbot
