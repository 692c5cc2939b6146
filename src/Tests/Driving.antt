-- ===== src/Tests/Driving.antt =====
-- The server over the model of the driver, at a concrete attach message.
use usb_over_ip.Common.{
  ℕ, ◌≡◌, ◌≢◌, ◌+◌, refl, List, [], ◌∷◌, Option, none, some, arith, true, replicate, length,
}
use usb_over_ip.Ioctl.Layout.{encode_plugin_request, encode_plugin_response}
use usb_over_ip.Driver.{DeviceContext}
use usb_over_ip.Driver.Table.{find_device}
use usb_over_ip.Driver.DeviceHandlers.Plugging.{plugged}
use usb_over_ip.Driver.Request.{Framework, Output, Reply}
use usb_over_ip.Driver.DeviceHandlers.{handle_plugin_device}
use usb_over_ip.Server.{ServerContext, Platform}
use usb_over_ip.Server.Messages.{handle_device_attach}
use usb_over_ip.Server.Driving.{IsConnected, attach_answer, attach_plugs}
use usb_over_ip.Tests.Samples.{descriptors, request, framework, busy_context}
use usb_over_ip.Tests.Service.{owner, hello}

abbrev answering : List ℕ → Framework
answering input = framework input (replicate 12 0)

abbrev output_bytes : Output → Option (List ℕ)
output_bytes (Output.plugin p) = some (encode_plugin_response p)
output_bytes _ = none

abbrev call_result : Option Reply → DeviceContext → Option (List ℕ) × DeviceContext
call_result none d = (none, d)
call_result (some r) d = (output_bytes r.output, r.context)

abbrev machine : Platform DeviceContext
machine = record {
  device_io_control =
      λ d code input. call_result (handle_plugin_device (answering input) d 7 (length input) 12) d;
  malloc = λ n. true;
  tracking_allocated = true;
  sends_all = λ slot bytes. true;
  error_text = λ text. replicate 256 0;
}

machine-IsConnected : IsConnected machine answering 7
machine-IsConnected = record {
  delivers = λ input long. (replicate 12 0, (ground arith, refl));
  answers = λ d input r p made e. rw made (rw e refl);
}

abbrev host : ServerContext DeviceContext
host = record {
  running = true;
  driver = some busy_context;
  client_count = 1;
  next_session_id = 1;
  clients = some owner ∷ [];
  next_sim_device_id = 0;
  sim_devices = [];
}

attach_plugs_example :
    (i : ℕ) × (d' : DeviceContext) × (host' : ServerContext DeviceContext) × (handle_device_attach
        machine host 0 hello
        (encode_plugin_request request descriptors)
        230
      ≡ some (host', record { slot = 0; bytes = attach_answer (i + 1) hello.sequence } ∷ []))
    × (host'.driver ≡ some d')
    × (find_device busy_context (i + 1) ≡ none)
    × (find_device d' (i + 1) ≡ some (plugged request.device_info descriptors i))
    × ((id : ℕ) → id ≢ i + 1 → find_device d' id ≡ find_device busy_context id)
attach_plugs_example =
    attach_plugs machine answering 7 host busy_context 0 hello request descriptors 230
      machine-IsConnected refl (omega arith) (omega arith) (omega arith) (omega arith) (omega arith)
      (omega arith) refl refl refl
