-- ===== src/Lib.antt =====
-- The Azure Device Update agent for Mbed CE in this repository: its string utilities, its retry
-- delay, its connection to the IoT Hub, the messages that it sends there, its workflow objects, the
-- deployment of an update, the signatures of its manifest, and the steps that it consists of.
--
-- The agent holds a deployment as a tree of workflow objects, one for the deployment and one for each
-- step below it. The connection manager keeps one IoT Hub client: its status callback records what the
-- SDK reports, and its maintenance, which the main loop calls, decides when to authenticate again. The
-- time of the next attempt comes from the retry delay. The string utilities read what comes from
-- outside: configuration values, update types, certificates. The agent workflow drives a deployment: it
-- calls the operation of a step, which ends at once or later, and with the result reports a state and
-- goes on to the next step; requests to cancel, to retry and to replace the deployment come in between.
-- A report is a message: one of each type is processed until the hub answers, and one is pending.
-- The manifest of an update is signed with a key that comes with it, itself signed with a root key. The
-- update has steps, each with a handler of its own, which the steps handler calls in turn. The handler of
-- this port writes firmware, and keeps a state in a store over the reboot that installs it.
--
-- The files, below mbed/COMPONENT_AZIOT_OTA/iot-hub-device-update_patch, where no other path is named:
--   Strings     utils/c_utils/string_c_utils.c. Number: IsNullOrEmpty, atoul, atoui. Trim:
--               ADUC_StringUtils_Trim, ADUC_StrNLen. UpdateType: ADUC_ParseUpdateType. Files:
--               ReadDelimitedValueFromFile, LoadBufferWithFileContents, ADUC_StringFormat,
--               MallocAndSubstr.
--   Retry       utils/retry_utils: ADUC_Retry_Delay_Calculator and the constants it is called with.
--   Connection  iothub_communication_manager/iothub_communication_manager.c. The static variables are
--               the record Manager. Connection: Init, Deinit, the status callback. Client:
--               ADUC_DeviceClient_Create. Config: the connection information. Maintenance:
--               ADUC_Refresh_IotHub_Connection_SAS_Token, Connection_Maintenance, DoWork. Backoff: the
--               steps of maintenance and callback, in any order.
--   Workflow    utils/workflow_utils/workflow_utils.c. An object is a record at an address of a Store.
--               Fields: the getters and setters. Properties: the properties and, in Ids, the ids.
--               Children: the array of children and the links to the parent. Cancel: trees of objects.
--               Lifecycle: replacement and retry. Folders: the folder of a workflow. Stores: reading an
--               object.
--   Deployment  adu_workflow/agent_workflow.cpp. Deployment: the handler table and the data. Reports:
--               SetUpdateState, SetInstalledUpdateIdAndGoToIdle, MethodCall_Idle. Operations: the
--               MethodCall functions. Engine: TransitionWorkflow, WorkCompletionCallback,
--               AutoTransitionWorkflow, HandleUpdateAction. Updates: HandleStartupWorkflowData,
--               HandlePropertyUpdate. Progress: that they end. Order: the order of the calls, over any
--               run. Cancelled and Replaced: a download that is cancelled, or replaced.
--   Messages    utils/d2c_messaging/d2c_messaging.cpp. Messages: SetMessageStatus and
--               OnMessageProcessingCompleted. Strategy: the default strategy. Sending: ProcessMessage and
--               the default transport. Answers: DefaultIoTHubSendReportedStateCompletedCallback. Store:
--               the other functions. Conserved, Accepted, Latest, Contents, Mailbox and Verdict: what
--               holds of them.
--   Config      utils/config_utils/config_utils.c, and in Blocks what becomes of its memory.
--   Crypto      utils/crypto_utils/crypto_lib.c, and in Keys which keys are freed.
--   Jws         utils/jws_utils/jws_utils.c. Split: the sections of a token. Verify and Trust: what the
--               checks of a token and of its key accept. Released: which keys are freed.
--   Manifest    utils/workflow_utils/workflow_utils.c: _workflow_parse, _Json_ValidateManifestHash,
--               workflow_init, workflow_init_from_file. Authentic: which update actions are accepted.
--   Steps       update_manifest_handlers/steps_handler/steps_handler.cpp. Prepare: the objects of the
--               steps. Actions: the methods of the handler. Loops: what its loops keep. Order and
--               Ordered: the order of the calls. Grows, Complete and Installs: an installation that
--               succeeds.
--   Firmware    mbed/COMPONENT_AZIOT_OTA/COMPONENT_AZIOT_OTA_PAL_MCUBOOT/mcubupdate_handler/
--               mcubupdate_handler.cpp: the nvImgUpgSt functions, the constructor that runs at each
--               start, and the methods of the handler. Settled: when an update counts as installed.
--               Programming: how a chunk of a download is written; Ready, Parts and Written: where
--               its bytes are then, on which device. Download and Downloaded: CombinedDownloadInstall
--               and VerifySignature. Operation: Download and its context. Received and Complete: what
--               a download leaves. Opened: what is held of the device.
--   Base        What the others share. Tests modules hold runs and inputs for the theorems.
--
-- How the C code is modelled. A string is the list of its bytes before the NUL, and a `char*` that
-- can be NULL is an Option. An operation that can read or write outside an object gives a Run: a
-- value, a fault, or a recursion out of fuel. `unsigned int`, and `unsigned long` on the 32-bit
-- targets, wrap at 2 ^ 32, as does the `size_t` of a download's offsets, and a pointer has 4 bytes.
-- Times and delays are natural numbers: a `time_t` does not overflow, and the doubles of the retry
-- delay are exact fractions. One call of the maintenance reads the clock once for its two uses.
-- Logging has no effect. Memory that is not released is not a fault.
--
-- Fuel. Recursion up or down a tree of objects is on fuel. It is enough to give the height of the tree
-- to request_cancel, and more than the depth of the object to get_root and get_workfolder. A transition
-- of a deployment has fuel for the steps that can follow, at most six and once more behind a
-- cancellation: 14 is always enough. Everything else is structural.
--
-- Not part of the repository, and arguments here: the IoT Hub SDK (the record Sdk), the identity
-- service, the settings file and the connection string parser (the record Provision), the JSON library
-- (the record Json, with the laws IsJson that theorems assume where they name it), the text that
-- printf formats, memory that malloc gives. The structure of a workflow object is declared in a header
-- that is not in the repository either: the record Workflow has the fields that the functions use.
--
-- The library mbedtls (the record Mbedtls) and the decoders of base64 are arguments too. A key is a value,
-- and the keys made and freed are a list of events.
--
-- What the callbacks, the reports and the platform answer to the deployment is a function of all that
-- has happened before (the record Platform). The object of a deployment is the record Job there, with
-- the fields that agent_workflow.cpp uses; of a replacement it takes over what the deferred one holds.
-- What the handlers of the steps, the loader of the handlers and the objects answer to the steps handler
-- is the record Extensions, again by what has happened before; the record Task holds the calls.
-- The sandbox folders, the texts of the results and the lock are left out: each handler runs as a whole.
--
-- The block device of the firmware is the record Flash: its sizes, and which of its reads and
-- programs succeed; the theorems on a download are about one that refuses what does not lie on it
-- (IsReady). A digest is the record Sha, and the header of an image the record Header. The chunks
-- of a transfer, and when its cancellation is requested, are the record Occasion.
--
-- Not modelled: the rest of workflow_utils.c (update files, hashes, instructions, the state file, free),
-- the extension manager, and the adapters, which are input and output.
-- mbed-http and copied are copies of other projects' libraries.

pub mod Base
pub mod Strings
pub mod Retry
pub mod Connection
pub mod Workflow
pub mod Deployment
pub mod Messages
pub mod Crypto
pub mod Config
pub mod Jws
pub mod Manifest
pub mod Steps
pub mod Firmware
