-- ===== src/Lib.antt =====
-- VirtualUSB: verification of the C code.
--
-- The program lets a USB device of one machine appear on another. A client captures a device and
-- sends it to a server over TCP; the server plugs a virtual device into a Windows kernel driver by
-- control requests; the driver queues the USB request blocks (URBs) of its virtual devices, the
-- server fetches them, forwards them to the client and hands their completions back to the driver.
--
-- The files and what they model:
-- - Common: tests on the native numbers, lists over them, and little-endian codecs.
-- - Protocol (protocol/vusb_protocol.h): the messages, with Layout for the packed structures
--   and Layout.Wire for the bytes of the header.
-- - Ioctl (protocol/vusb_ioctl.h): the structures of the control requests, with Layout again.
-- - Driver (driver/vusb_driver.h): the driver's context, VUSB_DEVICE_CONTEXT, as a record, with the
--   linked list of pending URBs as a list, and its array of device pointers as a list of options.
--   Table, Queue (driver/vusb_device.c): VusbCreateVirtualDevice is `create_virtual_device`,
--     VusbQueueUrb is `queue_urb`, and so on.
--   Urb (driver/vusb_urb.c): VusbUrbParse is `urb_parse`, and so on; Urb.Buffers has the
--     second half of the file. The USB stack's request block is a data type with one constructor
--     for each group of function codes that the parser joins.
--   Request, DeviceHandlers, UrbHandlers (driver/vusb_ioctl.c): VusbHandlePluginDevice is
--     `handle_plugin_device`, and so on.
--   Dispatch (driver/vusb_driver.c): VusbEvtIoDeviceControl is `io_device_control`.
-- - Server (server/vusb_server.h, server/vusb_server_urb.h): the server's state. A connection is the
--   slot that it has in the array of clients from its acceptance to its end, so that the pointers to
--   it are slots; what is sent is a list of messages, each with its slot.
--   Devices, Clients, Messages (server/vusb_server.c): VusbServerPluginDevice is `plugin_device`,
--     VusbServerAcceptClient is `accept_client`, VusbServerHandleDeviceAttach is
--     `handle_device_attach`, and so on; Messages.Session has the client's thread.
--   Forwarder (server/vusb_server_urb.c): ServerUrbForward is `urb_forward`, and so on.
--   Driving joins the server to the model of the driver, by what DeviceIoControl documents.
-- - Userspace (userspace/vusb_userspace.h): the user-mode server, which needs no driver. A client is
--   the slot that it has in the array of clients.
--   Devices, Urbs, Requests, Endpoints, Messages, Startup (userspace/vusb_userspace.c):
--     VusbUsCreateDevice is `create_user_device`, VusbUsSubmitUrb is `submit_urb`,
--     HandleStandardRequest is `handle_standard_request`, VusbUsEpRead is `ep_read`,
--     HandleDeviceAttach is `user_attach`, VusbUsInit is `init_user_context`, and so on;
--     Messages.Session has the client's thread (ClientThread) and the acceptance of a connection.
-- - Client (client/vusb_client.h): the client's state, with the bytes that have come in on its socket.
--   Requests (client/vusb_client.c): VusbClientAttachDevice is `attach_device`, and so on.
--   Capture (client/vusb_capture.c): UsbCaptureBulkTransfer is `bulk_on`, and so on;
--     Capture.Configuration has ReadConfigDescriptor and BuildDescriptorBuffer, and Capture.Placing
--     the table of interfaces that a configuration describes.
--   Urbs (client/vusb_client_urb.c): ClientUrbProcess is `process_urb`.
--   Receiving (client/vusb_client_enhanced.c): ReceiveThread is `receive_thread`, and so on.
--   Serving, EndToEnd put the model of the user-mode server behind the client's socket.
-- - Tests: the theorems at concrete inputs.
--
-- Modelling. An operation takes the context and gives the new one back. `none` as the result of a
-- handler is an access outside a buffer or through a null pointer. Casts of a buffer to a packed
-- structure are decoders of its bytes. Counters are natural numbers that wrap as the C types do, but
-- for the counts of connections, which the slots bound. Loops are structural recursion, over the list
-- that the code walks or over the number of slots. Four loops run on fuel. The threads of the two
-- servers' clients and the receiving thread of the client have one more than the bytes that come in;
-- each turn takes at least the 16 bytes of a header, so that is enough. The search for a descriptor
-- has one more than the bytes of the descriptors; each turn goes on by at least one. The
-- walk over a configuration has one more than the configuration's length, in the same way.
--
-- Parameters. The calls of the Windows driver framework and the outcomes of pool allocation are the
-- fields of a record that the driver's handlers take (Request), and what the theorems need of them is
-- the documented behaviour in `IsDocumented`. The server's calls of the system (DeviceIoControl,
-- malloc, send, strncpy_s) are the fields of `Platform`; the state behind the driver's handle is a
-- parameter. The user-mode server takes the outcomes of malloc and, in `GadgetOps`, its callbacks; the
-- client takes its network and malloc as `Network`, and WinUSB as `WinUsb`.
--
-- Not modelled: locks, since an operation is one step of the model; the interrupt level; power and
-- plug-and-play callbacks; the fields that no modelled operation reads (the endpoint table of a device,
-- the list of devices beside the array, IRP pointers); the opening of sockets and of the driver, the
-- thread that polls the driver; the capture of traffic to a file; the consoles and the arguments of the
-- programs; that the threads of the client with captured devices read the same socket; the enumeration
-- of USB devices and asynchronous transfers; the tools.
pub mod Common
pub mod Protocol
pub mod Ioctl
pub mod Driver
pub mod Server
pub mod Userspace
pub mod Client
pub mod Tests
