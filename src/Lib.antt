-- ===== src/Lib.antt =====
-- WAMR application framework. Applications in WebAssembly on a device exchange requests,
-- responses and events with one another and with a host. An app manager loads them, routes
-- messages to them and keeps their registrations; a byte link joins it to the host.
--
-- Restful (app-framework/app-native-shared/restful_utils.c, bi-inc/shared_utils.h) has the
-- request and response records. Restful/Packet is their byte format: pack_request,
-- unpack_request, pack_response, unpack_response, with children for the round trips and for
-- what is accepted and read. Restful/Copy is clone_request and request_cleaner on a ledger of
-- the heap's blocks. Restful/Url is check_url_start and match_url, by which every router below
-- compares urls.
--
-- HostLink (app-mgr/app-manager/app_manager_host.c, app-mgr/app-mgr-shared/host_link.h) is the
-- link: the receive state machine on_imrt_link_byte_arrive, one function per phase, the
-- callback aee_host_msg_callback over it, which hands unpacked requests to
-- am_dispatch_request, and app_manager_host_send_msg. Its children treat one frame, any byte,
-- whole streams, and what follows a message that is dropped. The module that installs
-- applications is a parameter, as is malloc.
--
-- Install (app-mgr/app-manager/module_wasm_app.c) is the receiver of a WebAssembly module,
-- which takes an install request byte by byte: Install has the phases in front of the file,
-- Install/Bytecode and Install/Aot those of the two formats, and Install/Receive the function
-- wasm_app_module_on_install_request_byte_arrive. Its children treat a whole request, item by
-- item, the bounds of what is written, and the writes behind them. Install/Callbacks is
-- wasm_register_msg_callback, and which messages app_instance_queue_callback gives to the
-- handlers. The runtime's functions are parameters.
--
-- Modules (app-mgr/app-manager/module_utils.c) is the list of loaded modules and their ids.
-- Resources (resource_reg.c and applet_mgt_reqeust_handler of app_manager.c) says which module
-- serves a url and dispatches a request to its handler; it looks modules up in Modules and
-- compares with Restful/Url. Events (event.c) says which modules are told of an event. Sensors
-- (app-framework/sensor/native/runtime_sensor.c) has the sensors, their clients, which are
-- modules, and the reading of sensors at intervals. Transactions and Handlers
-- (app-framework/base/app/request.c) are the side of an application: requests that wait for a
-- response, with their timer, and the handlers that it registers for requests and events, with
-- what it posts; they pack and unpack with Restful/Packet.
--
-- Attributes (app-framework/app-native-shared/attr_container.c, bi-inc/attr_container.h) is
-- the payload of most messages: a container of keyed values in one block of bytes. Attributes
-- has what reads a container, Attributes/Update what makes one and sets its attributes,
-- Attributes/Typed the functions for the other types. Attributes/Layout is the byte layout of
-- a list of attributes and Attributes/Layout/Walk how the functions walk through it;
-- Attributes/Container relates a container with its tag and its attributes.
--
-- Prelude has the names, list functions, Boolean tests and words that the parts share. Each
-- part has a module Examples with its theorems at concrete values.
--
-- How the model stands for the code. A record holds the globals of a file; an operation takes
-- it and returns it with the operation's result. A linked list is a list in the order of its
-- links, with the head first; a pointer to a node is what tells the node from the others, an
-- id or a field address. A string is the list of its bytes before the NUL. An int or a uint32
-- is its 32-bit pattern, a natural number, and arithmetic on it has its modulus written out. A
-- counter of type int (size_in_phase, total_received_size) comes round at 2 ^ 32 in the model,
-- where C leaves the overflow undefined; a pattern from 2 ^ 31 on is a negative index, and a
-- write there lies outside the memory. The theorems that say that a message is received keep
-- these counters below 2 ^ 31. The machine is little-endian. bh_memcpy_s is the memcpy that
-- the applications are built with; the native build refuses a copy that is longer than its
-- destination. Whether an allocation succeeds is an argument. A function that can return NULL,
-- or read or write outside its memory or through NULL, returns an Outcome: ok, null or fault.
-- Calls that leave the file, as those that post a message or call a callback, are collected in
-- a list, oldest first, in Install the last one first.
--
-- Loops are recursion on the list or the bytes they go through. The loop of transaction_add,
-- which may not end, has fuel, one unit for each round; one round is enough whenever it ends
-- at all.
--
-- Not modelled: locks and threads, which the operations are called under; the release of
-- memory, but in Restful/Copy and where a freed object stays in use; what the WebAssembly
-- runtime does with a module that has arrived (the rest of module_wasm_app.c, module_jeff.c),
-- the watchdog, timers of applications, connections, the graphics bindings, and the platform
-- files. Third-party code and samples are left out.
pub mod Prelude
pub mod Restful
pub mod HostLink
pub mod Events
pub mod Modules
pub mod Resources
pub mod Transactions
pub mod Sensors
pub mod Handlers
pub mod Attributes
pub mod Install
