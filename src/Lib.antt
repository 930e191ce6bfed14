-- ===== src/Lib.antt =====
-- A model of the core of HomeAutomationBridgeZ, a bridge between home devices and IP, in C.
--
-- The repository holds three programs' worth of code. DZigbee-bridge/ is the bridge to ZigBee nodes;
-- it names a node by a small number, its virtual port (VPS). ihaplite/ is the framework of the
-- bridge: tasks that pass messages to each other through a message handler, a time manager that
-- raises alarms, a session manager between the clients and the ports, and the conversion of bytes to
-- hexadecimal text. hpbridge/hpdaemon/ is the HomePort daemon, which publishes devices and services
-- over HTTP and sends events to its subscribers.
--
-- Which file models what (paths from the repository's root):
--   Zigbee/Vps           DZigbee-bridge/vps2addr.c: genvpstable, clearvpstable, vps_add, vps_add_nwk,
--                        vps_del, vps_vtoa, vps_atov, vps_vtoa_nwk, vps_atov_nwk, check_valid_vps
--   Ihap/Hex             ihaplite/auxfunctions.c: hexbinary_to_binary, binary_to_hexbinary
--   Ihap/Alarm           ihaplite/timemanager.c: a pass of TimeManagerTask, alarmSet,
--                        alarmTestAndReset
--   Ihap/Msg             ihaplite/msghandler.c: a wake-up of msgHandler with its queue (queue_add,
--                        queue_nextmsg, queue_remove), broadcast_msg, msgTestAndReset,
--                        msgSignalAndRelease, insert_msg_table_entry
--   Ihap/Session         ihaplite/sessionmanager.c: a round of SessionManagerTask, by its cases
--   Hpd/Error            hpbridge/hpdaemon/hpd_error.h and hpd_error_code_to_string of hpd_log.c
--   Hpd/Parameter        hpbridge/hpdaemon/hpd_parameters.c: create_parameter_struct, cmp_Parameter
--   Hpd/Events           hpbridge/hpdaemon/hpd_events.c: the queue of events and the subscriptions
--   Hpd/Config           hpbridge/hpdaemon/hpd_configure.c, with init_hpd_log and destroy_hpd_log of
--                        hpd_log.c; Config/Access has the functions that set and get a setting
--   Hpd/LogFile          hpbridge/hpdaemon/hpd_log.c: create_hpd_log, Log with the position of a
--                        message in the file, change_hpd_log_level, set_event_sending
--   Hpd/Services         hpbridge/hpdaemon/hpd_services.c; Services/Destroy has the destruction
--   Hpd/Xml              hpbridge/hpdaemon/hpd_xml.c: services.xml as a tree of devices, services and
--                        parameters, and its searches; Xml/Change what adds and removes, Xml/Document
--                        the documents that are sent and read, with timestamp
--   Hpd/ServerSentEvents hpbridge/hpdaemon/hpd_server_sent_events.c: the global queue and a turn of its
--                        thread, notify_service_availability, free_server_sent_events_ressources;
--                        ServerSentEvents/Stream has the lookups and a connection with its callbacks,
--                        ServerSentEvents/Subscribe the requests that subscribe and unsubscribe
--   Hpd/WebServer        hpbridge/hpdaemon/hpd_http_web_server.c and hpd_https_web_server.c: the lists
--                        of services; WebServer/Reply has the responses, WebServer/Answer
--                        answer_to_connection and secure_answer_to_connection, Answer/Trust
--                        verify_certificate, WebServer/RequestLog the line of the log for a request
--                        (get_allocated_log_message and Log of hpd_log.c), WebServer/Register and
--                        WebServer/Unregister the registration of hpd_web_server.c, WebServer/Life
--                        start_server and stop_server with what they call
--   Hpd/HomePort         hpbridge/hpdaemon/homeport.c: HPD_start with parse_option_va, HPD_stop, and the
--                        calls for a service or a device
--   Prelude              names, tests, lists and C strings that the others share
-- The modules below these hold the theorems, and a module Tests the runs at concrete inputs.
--
-- State is a record of the globals (or of the locals of a task) that a function reads and writes; a
-- function gives the state after it and its result. Undefined behaviour, such as a subscript out of
-- range, a NULL pointer that is used or a second free, is the result `none`; so is a call that never
-- returns, as a `pthread_join` with a thread that waits for ever. An unsigned char wraps at 256. A
-- `malloc` succeeds but where its failure is an argument. Messages of printf are left out.
--
-- Interaction: the session manager and the message handler use the alarms of Ihap/Alarm, and the
-- session manager the conversion of Ihap/Hex, on one memory. The daemon's parts share the codes of
-- Hpd/Error; services hold the parameters of Hpd/Parameter, in the heap of
-- Hpd/Services. A registration in Hpd/WebServer changes the list of its server, then the tree of
-- Hpd/Xml, and then notifies the sessions of Hpd/ServerSentEvents, whose queues are those of
-- Hpd/Events. A request reads a list and the heap, and may change the sessions: a PUT sends the
-- value that the driver gives back to the global queue, as the log does with the line of each request
-- that it writes; the thread of the queue copies the events to the sessions' queues, from where the
-- callback of a stream writes them to the client. Hpd/HomePort starts and stops
-- the configuration of Hpd/Config and the servers of Hpd/WebServer together.
--
-- Loops over an array are structural recursion on the rounds left. Four functions take fuel:
-- `strlen`, where it bounds the string that is read; `binary_to_hexbinary`, for which 256 rounds are
-- shown to be enough for fewer than 256 bytes and no number of rounds for more; `drain_loop` of the
-- message handler, for which five rounds are shown to be enough; `digits` of Xml/Document, with the
-- ten digits that an int can have. `vps_add` has 255 rounds, after
-- which its unsigned char has wrapped to 0.
--
-- Threads: a function that runs under a mutex is one step. What other threads do to an event queue
-- during a wait, and whether the mutex of a receiver is free, are arguments. The requests of clients
-- and the turns of the thread of the global queue are one after the other; that this thread has come
-- to its wait after the start is a step of its own, thread_waits.
--
-- Parameters: libconfig in Hpd/Config; in Hpd/Xml and Hpd/WebServer what Mini-XML writes and reads,
-- what libmicrohttpd and Avahi return, what GnuTLS says of a certificate, the ids that are generated,
-- the date and the time, the address of a client, whether the file of the log opens, and the
-- functions that a driver gives a service. Whether a service is registered with the web server is a
-- parameter of Hpd/Services, which Hpd/WebServer computes.
--
-- Not modelled: sockets and serial lines, Avahi, the error messages of the log, the clients and the
-- examples, and the older copies of the daemon's files beside the hpd_ ones. They are input and output
-- around other libraries. Of hpbridge/hpdaemon/hpd_web_server.c, register_device_services and
-- unregister_device_services are modelled for a device that is not secure, by the loops
-- register_services and unregister_services; for a secure one they pass a list element where a
-- service is expected.
pub mod Prelude
pub mod Zigbee
pub mod Ihap
pub mod Hpd
