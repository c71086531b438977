-- ===== src/Lib.antt =====
-- Swarmit: the firmware that runs experiments on a swarm of robots, in C under device/. A robot has
-- two cores. The network core (device/network_core) talks to the controller over the radio stack
-- mari: it takes requests, guards them by the status of the experiment, and passes them on by
-- interrupts and a structure in shared RAM. The application core runs the secure bootloader
-- (device/bootloader): it flashes images, starts the user image outside the secure world, and
-- serves its calls. A third program (device/bootloader-single-core) does both on a chip of one core.
--
-- What models what:
--   Protocol       protocol.h of the network core: message types, status codes, packed structs
--   Shared         ipc.h of both cores: the shared structure, the requests, the channels
--   Nvmc           nvmc.c and nvmc.h: page erase and word writes (Nvmc/Laws: the controller)
--   Net            device/network_core/Source/main.c. Packet: _handle_packet, the callback, the
--                  interrupt. Config: _load_config, _commit_config_and_reboot. Request: the switch on
--                  the type of a request, a function for each case (on_start, ...). Loop: the other
--                  blocks of the main loop and their order
--   Localization   device/bootloader/Source/localization.c
--   Tz             device/bootloader/Source/tz.c, and setup_ns_user of main.c in Tz/User
--   App            device/bootloader/Source/main.c. Mari: ipc.c, mari.c, rng.c. Ota: the update
--                  blocks. Loop: the other blocks and the handlers. Boot: main before its loop.
--                  Start: from the first line of main to its end. Drivers: battery.c and
--                  release_network_core. Kept, Rounds: rounds of the loop and the flash of the
--                  bootloader
--   Wires          the registers of the channels between the cores, as both main.c set them, with the
--                  event that starts the second watchdog. Delivery: which task reaches which event
--   Gateway        device/bootloader/Source/cmse_implib.c, what the user image may call
--   Single         device/bootloader-single-core/Source/main.c: Request, Loop, and main before its
--                  loop in Start. Refine, Transfer, Update, and Air for the packets: its update next
--                  to that of the other programs. Runs: from a start on
--   Link           the two cores together: Packets: what is sent for an update. Robot: a packet served
--                  by one core and then by the other. Chunks, Delivery, Series, Update: an update over
--                  the air, chunk by chunk. Wired: the interrupts that the registers give. Round,
--                  Watchdog, Experiment: a start and a stop over the air, with the reset and the
--                  next start. Traffic, Send: logs and packets between the user image and the
--                  air. Bounds, with Net/Bounds and App/Bounds: steps of both cores in any order
--   Mutex          mutex_lock and mutex_unlock of both cores, as turns of those that take it
--   Startup        System/startup.c of the four programs, sample the fourth: its loops, and in
--                  Reset each Reset_Handler. Clock: clock.c of device/bootloader. Fault: its
--                  fault_handlers.c
--   Sample         sample/Source/main.c, the user image that comes with the repository. Round: a
--                  round of it through Gateway
--   Base           lists and bytes, and the outcomes of a piece of C code
--   Examples       the tests
--
-- How the code is read. Each program's state is a record of its variables with the shared structure
-- and the flash; what it does to its surroundings (tasks raised, payloads sent, resets) is a list of
-- effects, the last one first. Each block of a main loop is a function on that state. Code that may
-- not come back, or that may copy past an array, gives an Outcome: `next` goes on, `stopped` is a
-- reset or an endless wait, `fault` is an access outside a buffer as a whole. The reads of
-- verify_chunk past the declared ends of the arrays of a packet (sha, chunk) stay in the request
-- buffer, and are not counted. Integers are natural numbers with the wrap-around written out where it
-- can matter; arrays are lists of their bytes or words.
-- A loop over a count is recursion on the rounds left, and a wait for the other core takes as an
-- argument whether it ends. The loops of the start-up code are on fuel, a number of rounds; what is
-- left of one after these is `stopped`. One round for each word of the longest section is enough,
-- and for a wait for a clock one more than the reads before its event shows.
--
-- Parameters, since their code is elsewhere: mari's constants and metrics, the hash, the flash
-- controller (Store, with the documented behaviour IsController), the vendor's register values
-- (SpuBits, ScbMasks, Chip), SystemInit, the lighthouse driver and the floating-point operations
-- (Reals), and, for each core, what the other one does to the shared structure (NetCore, NetEvent).
-- Link replaces the last by the other core's own code.
--
-- Not modelled: the pins for debugging, the vector tables, the chip vendor's system_init.c, the
-- time that passes, the printing, and the controller in Python. The blocks run one after another;
-- interrupts come between rounds of a loop. The copies that the mutex guards are single steps, and
-- Mutex models the turns around them.
pub mod Base
pub mod Protocol
pub mod Shared
pub mod Nvmc
pub mod Net
pub mod Localization
pub mod Tz
pub mod App
pub mod Gateway
pub mod Single
pub mod Wires
pub mod Link
pub mod Startup
pub mod Mutex
pub mod Sample
pub mod Examples
