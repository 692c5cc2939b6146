-- ===== src/Tests/Service.antt =====
-- The server at concrete inputs, over a driver that counts its calls and answers every one of them
-- with success and the count.
use usb_over_ip.Common.{
  ℕ, ◌≡◌, ◌≢◌, ◌+◌, ◌⊎◌, refl, List, [], ◌∷◌, ◌++◌, none, some, arith, true, false, replicate, All,
  take,
}
use usb_over_ip.Common.Codec.{to_le}
use usb_over_ip.Protocol.{Header, UrbComplete, init_header, validate_header}
use usb_over_ip.Protocol.Layout.{encode_header, decode_header}
use usb_over_ip.Protocol.Layout.Urbs.{decode_urb_submit, encode_urb_complete}
use usb_over_ip.Ioctl.{IoctlCode, PendingUrb}
use usb_over_ip.Ioctl.Layout.{encode_pending_urb, encode_urb_completion, encode_plugin_request}
use usb_over_ip.Driver.Urb.{pending_of}
use usb_over_ip.Server.{ServerContext, Platform, ClientConnection, UrbContext, Tracked, control}
use usb_over_ip.Server.Clients.{new_client}
use usb_over_ip.Server.Messages.{handle_device_attach, handle_urb_complete}
use usb_over_ip.Server.Messages.Attaching.{attach_overreads}
use usb_over_ip.Server.Messages.Completing.{urb_complete_misreads}
use usb_over_ip.Server.Messages.Session.{
  client_thread, client_thread_finishes, Outcome, receive, receive_frame,
}
use usb_over_ip.Server.Forwarder.{urb_forward, Forwarded, server_urb_complete}
use usb_over_ip.Server.Forwarder.Submitting.{urb_forward_submits, announcing, asked}
use usb_over_ip.Server.Clients.Owning.{Passes}
use usb_over_ip.Server.Forwarder.Tracking.{server_urb_complete_takes, TakesTracked}
use usb_over_ip.Tests.Samples.{mouse, request, out_entry}

abbrev pub platform : Platform ℕ
platform = record {
  device_io_control =
      λ d code input. (some (to_le 4 0 ++ to_le 4 (d + 1) ++ to_le 4 (d + 1)), d + 1);
  malloc = λ n. true;
  tracking_allocated = true;
  sends_all = λ slot bytes. true;
  error_text = λ text. replicate 256 0;
}

abbrev pub owner : ClientConnection
owner = record (new_client 50 1) {
  devices = record { active = true; device_id = 1; remote_id = 3 } ∷ [];
}

-- Two slots, of which the second is taken by a client with device 1.
abbrev pub server : ServerContext ℕ
server = record {
  running = true;
  driver = some 6;
  client_count = 1;
  next_session_id = 1;
  clients = none ∷ some owner ∷ [];
  next_sim_device_id = 0;
  sim_devices = replicate 16 (record { active = false; device_id = 0; device_info = mouse });
}

abbrev pub simulation : ServerContext ℕ
simulation = record server { driver = none }

abbrev pub hello : Header
hello = init_header 3 0 17

client_thread_finishes_example :
    client_thread platform server 1 (some (replicate 64 0)) (encode_header hello [])
    ≢ Outcome.unfinished
client_thread_finishes_example =
    client_thread_finishes platform server 1 (some (replicate 64 0)) (encode_header hello [])

receive_frame_example :
    receive (replicate 8 0) (encode_header (init_header 0x11 4 9) (1 ∷ 0 ∷ 0 ∷ 0 ∷ 77 ∷ []))
    ≡ some (record {
      header = init_header 0x11 4 9;
      buffer = 1 ∷ 0 ∷ 0 ∷ 0 ∷ 0 ∷ 0 ∷ 0 ∷ 0 ∷ [];
      stream = 77 ∷ [];
    })
unfolding init_header
receive_frame_example =
    receive_frame 0x11 9 (1 ∷ 0 ∷ 0 ∷ 0 ∷ []) (replicate 8 0) (77 ∷ []) (omega arith) (omega arith)

-- A header of another protocol.
abbrev strange : Header
strange = record { magic = 1; version = 0x0100; command = 3; payload_length = 0; sequence = 17 }

abbrev done : UrbComplete
done = record { device_id = 1; urb_id = 2; status = 0; actual_length = 18; error_count = 0 }

-- What the server reads in its place.
abbrev misread : UrbComplete
misread = record { device_id = 0; urb_id = 0x12; status = 5; actual_length = 2; error_count = 9 }

urb_complete_misreads_example :
    handle_urb_complete platform server hello
      (encode_urb_complete done
        (to_le 4 0x12 ++ (to_le 4 5 ++ (to_le 4 2 ++ (to_le 4 9 ++ (7 ∷ 8 ∷ []))))))
      38
    ≡ some
        (control platform server IoctlCode.complete_urb (
          encode_urb_completion
            (record {
              device_id = 0;
              urb_id = 0x12;
              sequence_number = hello.sequence;
              status = 5;
              actual_length = 2;
            })
            (7 ∷ 8 ∷ []))).1
urb_complete_misreads_example =
    urb_complete_misreads platform server 6 hello done misread (7 ∷ 8 ∷ []) 38 refl refl
      (omega arith) refl (omega arith) (omega arith)

attach_overreads_example :
    handle_device_attach platform server 1 hello (encode_plugin_request request (1 ∷ [])) 213 ≡ none
attach_overreads_example =
    attach_overreads platform server 1 hello request (1 ∷ []) 213 6 (omega arith) (omega arith) refl
      refl (omega arith)

abbrev tracking : UrbContext
tracking = record {
  pending_list =
      record {
        urb_id = 4;
        device_id = 1;
        client_device_id = 0;
        client = 1;
        submit_time = 0;
        timeout = 0;
      }
      ∷ [];
  pending_count = 1;
}

abbrev waiting : PendingUrb
waiting = pending_of (out_entry 1)

urb_forward_submits_example :
    (r : Forwarded ℕ) × (m body : List ℕ) × (urb_forward platform tracking server
        (encode_pending_urb waiting (7 ∷ 8 ∷ 9 ∷ 0 ∷ []))
        5
      ≡ some r)
    × (r.sent ≡ record { slot = 1; bytes = m } ∷ [])
    × (r.context ≡ server)
    × (decode_header m ≡ some (announcing waiting, body))
    × (validate_header (announcing waiting) ≡ true)
    × (decode_urb_submit body ≡ some (asked waiting, 7 ∷ 8 ∷ 9 ∷ []))
unfolding Passes
urb_forward_submits_example =
    urb_forward_submits platform tracking server waiting (7 ∷ 8 ∷ 9 ∷ []) (0 ∷ []) (none ∷ []) []
      owner (record { active = true; device_id = 1; remote_id = 3 }) 5 (omega arith) refl refl
      (tt, tt) (record { in_use = refl; place = 0; there = refl; active = refl; named = refl }) refl

abbrev pub CompletesOrNot : ℕ → Type 0
CompletesOrNot id =
    ((server_urb_complete platform tracking server id 0 2 (some (5 ∷ 6 ∷ [])) []
        ≡ some (false, tracking, server))
      × All (λ (x : Tracked). x.urb_id ≢ id) tracking.pending_list)
    ⊎ ((t : Tracked) × (rest : List Tracked) × TakesTracked id tracking.pending_list t rest
        × (server_urb_complete platform tracking server id 0 2 (some (5 ∷ 6 ∷ [])) []
            ≡ some (
              true,
              record { pending_list = rest; pending_count = 0 },
              (control platform server IoctlCode.complete_urb (
                  take 22 (
                    encode_urb_completion
                      (record {
                        device_id = t.device_id;
                        urb_id = id;
                        sequence_number = 0;
                        status = 0;
                        actual_length = 2;
                      })
                      (5 ∷ 6 ∷ [])))).1,
            )))

server_urb_complete_takes_example : CompletesOrNot 4
server_urb_complete_takes_example =
    server_urb_complete_takes platform tracking server 6 4 0 2 (5 ∷ 6 ∷ []) [] refl refl
      (omega arith)
