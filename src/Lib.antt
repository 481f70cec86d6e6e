-- ===== src/Lib.antt =====
-- The driving control of a laser-guided forklift: its link to the scheduling server, the events through
-- which the threads of the program talk, its sensors on the CAN bus, the car with its path and its
-- status, and the legs on which it drives from one way point to the next.
--
-- The server sends packets of frames. A frame is a flag, a header with length, check sum, type and
-- command, a payload, and a flag; a flag inside is stuffed away. The receiving thread splits a packet,
-- checks each frame, unpacks the payload by its command, pushes an event and sends an acknowledgement.
-- The main loop pops the events by priority and offers each to the listeners.
--
-- The CAN operator's thread puts packages together from messages of eight bytes and hands them to its
-- listener, the sensor manager, which passes them on to the sensors by their identifiers; a sensor
-- parses them and pushes events. The manager counts a timer's events to find sensors that are offline.
--
-- The car is a listener of the events. It turns those of barriers into a status, lights, voices and the
-- order to stop; along the path it asks its planner for the way points and gives its controler an order
-- for each. The controler's thread lets the helper that moves the car make one round after the other, and
-- at the end of a way the helper sends the event on which the car turns to the next point.
--
-- Files:
--   Prelude           names of the libraries passed on, tests, lists, integers and bits
--   Wire              comm/AgvSchProtocol.cpp: Buffer2Bin, Bin2Buffer, the section macros
--   CheckSum          utils/AgvCheckSum.cpp: GetCrc16 and its table
--   Protocol          comm/AgvSchProtocol.cpp: CAgvSchProtocol. `check_protocol`, `pack_data`,
--                     `unpack_data`, `encode` and `decode` are the methods of these names; the loops
--                     are `scan`, and recursion on the bytes
--   Messages          comm/AgvSchProtocol.cpp: the message classes; `X_pack` and `X_unpack` are the
--                     methods packData and unPackData of class X
--   Event             event/AgvEvent.h and event/AgvEventHelper.cpp: the queue and the listeners
--   Scheduler         controler/AgvScheduler.cpp: ParseReceiveData is `parse_receive_data`, with one
--                     function for each case of its switch; the senders keep their names
--   Route             controler/AgvRoutePlanner.cpp: the path, its target and last station, the
--                     settings and the file that they are saved to; Route/Positions moves along the
--                     path, Route/Reports ends an action
--   Can               devices/canbus/AgvCanOperator.cpp: a round of Run is `run_round`, and `run` is its
--                     loop on a list of messages; Can.Sending has SendData and the socket's Write
--   Sensor            devices/canbus/AgvSensor.cpp: the base class, whose virtual function is an argument
--                     of `parse_data`; a child for each class, where `parse_can_data` is ParseCanData;
--                     Sensor.Panel has the small classes
--   Manager           devices/canbus/AgvSensorManager.cpp: the methods keep their names; Manager.Device
--                     puts the classes' ParseCanData together, but for the display, the lidar and the
--                     power sensor
--   Download          devices/canbus/AgvDownloadBin.cpp: `ack_check` is readDataToAckCheck, `send_file` is
--                     SendFileViaCanBus and `transfer` its part behind the two first loops
--   Car               controler/AgvCar.cpp: SetCarStatus, StopCar and OnBarrierMessage, by their names
--   Move              controler/AgvMoveHelperForklift.cpp: `set_target` and `loop_running` are
--                     SetTarget and LoopRunning (Move.Way); Move.Speed has ManageWheelSpeed
--   Controler         controler/AgvCarControler.cpp: the methods keep their names; what the devices
--                     are told is a list, and a round of Run is `run_round`
--   Vehicle           controler/AgvCar.cpp with its controler and its planner: HandleEvent is
--                     `handle_event` of Vehicle.Dispatch, its longer cases and StartRun are in
--                     Vehicle.Handler, GoToNextPoint in Vehicle.Points, the actions at a point below it;
--                     what the functions of Car ask for is carried out here
--   Tests             the theorems on small inputs
--
-- Conventions. Bytes are numbers below 256 that stand in lists; a number that is cut to 16 or 32 bits
-- is cut by `%` where the source assigns it, and the speeds of the wheels by `int32`; other ints are
-- not cut. `none` is a fault: an access outside of an array or through NULL, or a use of what was
-- never written; the model stops there, and says nothing of what a compiled program does then. A call
-- that returns a code gives it as a ℤ.
--
-- Fuel. `parse_loop` takes fuel, as it recurs on the number that UnPackData leaves; one more than
-- the bytes of the packet is given, and each accepted frame takes at least ten. `wait_ready`, the loop of
-- the source that has no bound, takes the rounds it may make. Every other loop recurs on its list or on
-- its count; the counts 5000 and 20000 of the download are the source's.
--
-- Parameters. What SocketWrite, mktime and settimeofday answer is the record `Outside`. A listener's
-- handler is an argument of `process_events`; whether fopen succeeds is one of the planner's operations.
-- Whether the system call that writes a CAN frame fails is a `SystemWrite`, and what a board answers to a
-- download a `Board`; both may depend on all that was written before. Which numbers sscanf finds in a line
-- of the path's file is `read_back`. There are no floats: what Move needs of them is `Floats`, the routines
-- that steer and those that cut a way into legs are arguments, and the tests on two poses and the
-- constants of the settings are the record `Machine` of Vehicle.
--
-- Not modelled: threads, timers and sockets of the scheduler (Run, ConnectToServer, Disconnect, and the
-- waiting for an answer to a command); the search for the braces in a line of the path's file; of the
-- sensors the laser, the gyroscope, SetAngle, the magnetic sensor's details and the power sensor's
-- capacity, which compute with floats, and WriteHMIPara; Initial and Read of the CAN socket; Init, Destroy
-- and the log files of the car; Init, InitSensors and Close of its controler; of the helper the routines
-- that steer, SplitToSubTarget, AttitudeAdjustToFork and wheelControl, and the steering controler and the
-- geometry below them, in floating point; the network devices, start-up, settings, logs and XML; the
-- libraries in 3rdparty.
pub mod Prelude
pub mod Wire
pub mod CheckSum
pub mod Protocol
pub mod Messages
pub mod Event
pub mod Scheduler
pub mod Controler
pub mod Move
pub mod Vehicle
pub mod Route
pub mod Can
pub mod Sensor
pub mod Manager
pub mod Download
pub mod Car
pub mod Tests
