-- ===== src/Tests/Sessions.antt =====
-- A terminal that is resized, and port sessions over a network that takes everything.
use ecstoolkit.Base.{
  ℕ, ◌+◌, ◌++◌, ◌≡◌, ◌⊎◌, refl, arith, ℤ, pos, [], ◌∷◌, List, none, some, Option, Result, ok, err,
  blocked, invalid, eof, false, true, Returns,
}
use ecstoolkit.Buffer.{Bytes}
use ecstoolkit.Message.Types.{codes}
use ecstoolkit.Session.{Support}
use ecstoolkit.Session.Shell.{SizeData, ShellState}
use ecstoolkit.Session.Shell.Resize.{Script, resize_rounds, changes, resize-changes}
use ecstoolkit.Session.Port.{process_stream_message_payload, incoming_message_handler}
use ecstoolkit.Session.Port.Net.{PortParameters, Network}
use ecstoolkit.Session.Port.Basic
use ecstoolkit.Session.Port.Basic.{BasicPortForwarding, read_round}
use ecstoolkit.Session.Port.Locking.{
  Place, idle, inside, waiting, ended, Threads, Reach, here, next, reader_goes_on, handler_asks,
  IsHeld, reader-starves,
}
use ecstoolkit.Session.Port.Mux
use ecstoolkit.Session.Port.Mux.{MuxPortForwarding, Multiplexer}
use ecstoolkit.Session.Port.Early.{IsWaiting, waiting-blocks}
use ecstoolkit.Session.Port.Stopping.{ClosingsReturn, all_closed, stop-closes}
use ecstoolkit.Tests.World.{sample_libraries, sample_message}

-- The size as two bytes.
abbrev two_bytes : SizeData → Bytes
two_bytes d = d.cols ∷ d.rows ∷ []

abbrev three_sizes : List (Result (ℤ × ℤ))
three_sizes = ok (pos 80, pos 24) ∷ ok (pos 80, pos 24) ∷ err invalid ∷ []

abbrev new_shell : ShellState Script
new_shell = record {
  size_data = record { cols = 0; rows = 0 };
  original_stty_state = [];
  has_shutdown = true;
  is_shut_down = false;
  outer = record { sizes = three_sizes; sent = [] };
}

resize-changes_example :
    (resize_rounds two_bytes 3 new_shell).outer.sent
    ≡ changes two_bytes (record { cols = 0; rows = 0 }) three_sizes
resize-changes_example = resize-changes two_bytes three_sizes new_shell (ground arith) refl

-- Each call takes a unit of time.
abbrev sample_network : Network ℕ
sample_network = record {
  listen = λ kind address w. (ok 1, w + 1);
  tcp_port = λ l. some (codes "8080");
  accept = λ l w. (ok 2, w + 1);
  dial_listener = λ l w. (ok 3, w + 1);
  read = λ k w. (ok (104 ∷ 105 ∷ []), w + 1);
  write = λ k b w. (ok tt, w + 1);
  close_connection = λ k w. (err eof, w + 1);
  close_listener = λ k w. (ok tt, w + 1);
  join_host_port = λ h p. h ++ (58 ∷ p);
}

abbrev sample_multiplexer : Multiplexer ℕ
sample_multiplexer = record {
  hash_digits = λ b. 49 ∷ [];
  temp_dir = codes "/tmp";
  join = λ d f. d ++ (47 ∷ f);
  remove = λ path w. (ok tt, w + 1);
  is_not_exist = λ e. false;
  client = λ keepalive_off k w. (ok 4, w + 1);
  close_session = λ k w. (err eof, w + 1);
  open_stream = λ k w. (ok 5, w + 1);
  copy_to_stream = λ conn stream w. (ok tt, w + 1);
  copy_from_stream = λ conn stream w. (ok tt, w + 1);
  close_stream = λ stream w. (ok tt, w + 1);
  done = λ w. false;
}

abbrev sample_support : Support ℕ
sample_support = record {
  send_flag = λ n w. (ok tt, w + 1);
  send_input_data_message = λ kind b w. (ok tt, w + 1);
  terminate_session = λ w. (ok tt, w + 1);
  close = λ w. (ok tt, w);
  display_message = λ m w. (ok tt, w);
  agent_version = λ w. codes "3.1.1.0";
}

abbrev no_parameters : PortParameters
no_parameters = record {
  port_number = codes "22";
  local_port_number = [];
  local_unix_socket = [];
  local_connection_type = [];
  parameters_type = codes "LocalPortForwarding";
}

abbrev basic_port : Option ℕ → ℕ → BasicPortForwarding ℕ
basic_port stream w = record {
  stream = stream;
  listener = some 1;
  port_parameters = no_parameters;
  mutex_held = false;
  outer = w;
}

abbrev mux_port : Option Mux.MuxClient → Option Mux.MgsConn → MuxPortForwarding ℕ
mux_port client conn = record {
  session_id = 115 ∷ [];
  socket_file = codes "/tmp/1_";
  port_parameters = no_parameters;
  mux_client = client;
  mgs_conn = conn;
  outer = 100;
}

-- No client connects.
abbrev waiting_network : Network ℕ
waiting_network = record sample_network { accept = λ l w. (blocked, w) }

waiting_network-IsWaiting : IsWaiting waiting_network sample_support
waiting_network-IsWaiting = record {
  listens = λ kind address o. (1, refl);
  has_port = λ l. (codes "8080", refl);
  no_client = λ l o. refl;
}

waiting-blocks_example :
    let port = Basic.port_session waiting_network sample_support in
    let (r, s) = port.initialize_streams (codes "3.1.1.0") (basic_port none 7) in
    (r ≡ blocked)
    × (incoming_message_handler port sample_libraries (1 ∷ []) s ≡ (blocked, s))
    × (process_stream_message_payload port sample_message s ≡ (blocked, s))
    × (port.stop s ≡ (blocked, s))
waiting-blocks_example =
    waiting-blocks waiting_network sample_support sample_libraries (1 ∷ []) sample_message
      (codes "3.1.1.0") (basic_port none 7) waiting_network-IsWaiting refl

all_return : ClosingsReturn sample_network sample_multiplexer
all_return = record {
  listeners = λ k o. tt;
  connections = λ k o. tt;
  sessions = λ k o. tt;
  removals = λ path o. tt;
}

abbrev open_mux : MuxPortForwarding ℕ
open_mux =
    mux_port (some (record { conn = some 3; session = 4 }))
      (some (record { listener = 1; conn = 2 }))

stop-closes_example :
    Returns (Mux.stop sample_network sample_multiplexer sample_support open_mux).0
    × ((Mux.stop sample_network sample_multiplexer sample_support open_mux).1.outer
        ≡ all_closed sample_network sample_multiplexer sample_support 1 2 4 3 (codes "/tmp/1_") 100)
stop-closes_example =
    stop-closes sample_network sample_multiplexer sample_support open_mux 1 2 4 3 all_return refl
      refl

-- The port while the reader holds the mutex.
abbrev held_port : ℕ → BasicPortForwarding ℕ
held_port w = record (basic_port (some 2) w) { mutex_held = true }

abbrev reading : BasicPortForwarding ℕ → Place → Threads ℕ
reading port handler = record { port = port; reader = inside; handler = handler; controls = idle }

-- A round of the reader, and a message that waits.
one_round :
    Reach sample_network sample_support (reading (held_port 7) idle) (reading (held_port 9) waiting)
unfolding read_round
one_round =
    next _ _ (next _ _ here (reader_goes_on (reading (held_port 7) idle) (held_port 9) refl refl))
      (handler_asks (reading (held_port 9) idle) refl)

reader-starves_example :
    (inside ≡ inside
      × IsHeld sample_network sample_support
          (reading (held_port 7) idle)
          (reading (held_port 9) waiting))
    ⊎ (inside ≡ ended)
reader-starves_example =
    reader-starves sample_network sample_support (reading (held_port 7) idle)
      (reading (held_port 9) waiting) refl (λ e. ground arith) (λ e. ground arith) one_round
