-- ===== src/Lib.antt =====
-- The dashboard for a Raspberry Pi and a Speeduino ECU: a service that reads a CAN bus, a service
-- that watches the reverse gear, and a user interface. This library models the parts that decide
-- something, and proves what they decide.
--
-- Bus, of src/can_service/include/can_service/can_interface.hpp: `CanFrame`. The sockets behind it
-- are not modelled: whoever sends or receives takes what the bus answers as a parameter.
--
-- ErrorHandler, of src/can_service/src/can_error_handler.cpp and its header: `CanErrorHandler`.
-- State holds its data, Text the texts of protocol errors, Process the methods, one function for
-- each `if` of `processErrorFrame`. The constants of <linux/can/error.h> are a parameter, the
-- record `CanErrors`. `updateState` releases the mutex around the state callback: what happens to
-- the handler then, by the callback or by another thread, is the parameter `released`, and each
-- theorem says what it asks of it. Calls to the two callbacks are kept as lists, the last call
-- first. Counters of 64 bits wrap. Transitions, Statistics, Totals, Callbacks, Events, Changes and
-- Reset hold the theorems. Recovery is `triggerRecovery`, with the kernel's answers as a record and
-- its calls as a list; Restarts has its theorems. Not modelled: the log, `enableErrorFrames`,
-- `getStatusString`, `CanBusMonitor`.
--
-- Reverse, of src/reverse_service/src/reverse_detector.cpp, its header, and `ReverseConfig` of
-- src/common/include/common/config_loader.hpp: `ReverseDetector`. Gpio is `initGpio` and the
-- release of the line, over the answers of libgpiod, in the build that has it; Detector the other
-- methods. The two copies of the debounce, of `procesCanFrame` and of `checkGpio`, are one
-- function. The clock is read in nanoseconds, and is an argument: a call at `now` sees it. Each
-- handler is one step, though `setState` runs after the mutex is given back. Readings turns
-- histories of calls into readings; Debounce, Settling and Calls have the theorems.
--
-- Writer, of src/can_service/src/can_writer.cpp and its header: `TokenBucket` (Bucket) and
-- `CanWriter` (Commands), with the theorems in Credit, Rate, Safety and Loading. Tokens are counted
-- in billionths, so that a refill over nanoseconds is exact where the code computes in floating
-- point. The two unordered maps are lists of entries, of which a lookup takes the newest; what the
-- interface answers is an argument of `send`, and the frames that it was given are kept in a list.
--
-- Parser, of src/can_service/src/can_parser.cpp, its header, and `EngineData` of
-- src/common/include/common/zmq_messages.hpp: Extract is `extractRawValue` and the sign extension
-- of `applyScaling`, for the signals of `CanSignalDef`; Values the scaling, the store of values and
-- `parseFrame`; Engine `updateEngineData`. Database has the signals of
-- src/can_service/src/signal_database.cpp. Numbers, Ranges, Store, Warnings, Thresholds and Protocols
-- have the theorems. A read past the eight bytes of a frame, and a shift by 64, is the result `none`. Values
-- that the code computes in floating point are exact ratios here. Signals of one identifier are
-- read in the order of the unordered multimap, which is a parameter, `arrange`: whoever needs to
-- know of it that it holds what was loaded takes that as a hypothesis.
--
-- Obd, of src/can_service/src/obd_handler.cpp and its header: `OBDHandler`. Request builds frames,
-- Exchange sends one and waits for its answer, LiveData, Supported, Trouble, Vin and EcuName are
-- the public operations, Codes and Descriptions the trouble codes. What the bus and the clock do
-- during an exchange is a function of the round (`Exchange`, and `Tail` after a first frame). Loops
-- run on fuel: an exchange has its timeout in milliseconds and two more rounds, which suffice since
-- each round sleeps a millisecond; the search for supported PIDs has 8 rounds, one for each range;
-- the loop over the consecutive frames of a VIN or an ECU name takes its fuel as an argument, which
-- suffices when the clock passes one second within it. A result `none` outside is fuel that ran
-- out, and inside the `nullopt` of the code. Values that the code computes in floating point are
-- exact ratios here; Standard has the table of their scales. A read past the eight bytes of a frame
-- is a result of its own, `none`.
--
-- Health, of src/common/src/system_health.cpp and its header: `SystemHealth`. State holds its data
-- and the mode that the subsystems' health asks for, Methods the methods. Both callbacks run with
-- the mutex released: what happens then is a parameter, the record `World`. Runs of calls are in
-- Runs; Modes, Shutdown and Timeouts have the theorems. The clock is read in nanoseconds and is an
-- argument.
--
-- Cluster, of src/can_service/src/bmw_cluster_sim.cpp and its header: `BMWClusterSim`. State has
-- the settings and the setters, Frames the four kinds of frames, Ticks `tick` and the loop of the
-- thread, over the list of its rounds: how long a round's tick took, and what the setters did in
-- it. What the interface answers is a function of the frames that it was given. Rates, Encoding and
-- Counts have the theorems.
--
-- OpenAuto, of src/hmi_launcher/src/openauto_controller.cpp and its header: `OpenAutoController`.
-- State has its members, its signals, its single-shot timers and its calls of QProcess as lists;
-- Slots and Output have the slots, Control `start`, `stop`, `restart`, `toggle` and `sendTouch`,
-- Devices the search on the USB bus. What QProcess and the file system answer to a call is a
-- record, `Answers`, with the signals that come while the controller waits; texts are compared by a
-- parameter, `Texts`. Steps puts calls, signals and timers in any order that the times allow; the
-- periodic USB check is a call among them. Supervisor is a smaller machine that only restarts,
-- Machine has its moves; Following, Reachable and Loop have the theorems.
--
-- Wideband, of src/can_service/src/wideband_forwarder.cpp and its header: `WidebandForwarder`.
-- Forwarder has its members and methods; the loop of its thread runs over the list of its rounds;
-- Encoding has the theorem. What the code computes in `float` is a parameter, of which the theorem
-- asks that it errs by a hundredth at most.
--
-- Watchdog, of src/common/src/watchdog_notifier.cpp: `WatchdogNotifier`, built for Linux. Notifier
-- has its members and methods; the loop of its thread runs over the list of its rounds: what the
-- health check answers, and how often the round's sleep finds the thread still wanted. Rounds has
-- the theorem.
--
-- Not modelled: the ZeroMQ messages, the configuration files, the rest of the user interface and
-- the programs' main functions, which wire the parts together.
--
-- Common has the shared helpers; the Examples modules run the theorems at concrete inputs.

pub mod Bus
pub mod Cluster
pub mod Common
pub mod ErrorHandler
pub mod Health
pub mod Obd
pub mod OpenAuto
pub mod Parser
pub mod Reverse
pub mod Watchdog
pub mod Wideband
pub mod Writer
