-- ===== src/Tests/Sockets.antt =====
-- A web socket that counts: its state is the time. Dialling gives the connection 7, and a read fails until
-- time 2.
use ecstoolkit.Base.{
  ℕ, ◌+◌, ◌≡◌, refl, arith, true, [], ◌∷◌, some, none, ok, err, connection_closed, eof,
  if◌then◌else◌, ltb, inl, timed_out, pos, replicate,
}
use ecstoolkit.Communicator.{
  Sockets, Link, new_web_socket_channel, close, send_message, read_message, text_message,
}
use ecstoolkit.Communicator.Lifecycle.{
  IsWired, opens, closes, pings, sends, perform_all, perform_all-IsWired, close-close,
  reconnections, reconnections-pingers,
}
use ecstoolkit.Communicator.Reading.{Failures, none, more, read_message-success}
use ecstoolkit.Retry.Repeatable.{Retryer, call, capped, next_sleep_time}
use ecstoolkit.Retry.Repeatable.Calls
use ecstoolkit.Retry.Repeatable.Calls.{call_lem}

abbrev counting_sockets : Sockets ℕ
counting_sockets = record {
  dial = λ url w. (ok 7, w + 1);
  write = λ k kind input w. (ok tt, w + 1);
  read = λ k w. (if ltb w 2 then err eof else ok (text_message, 104 ∷ 105 ∷ []), w + 1);
  close_connection = λ k w. (ok tt, w + 1);
}

abbrev new_link : Link ℕ
new_link = record { socket = new_web_socket_channel (119 ∷ []) (116 ∷ []); world = 0 }

abbrev open_link : Link ℕ
open_link = record {
  socket = record {
    channel_url = 119 ∷ [];
    is_open = true;
    connection = some 7;
    channel_token = 116 ∷ [];
    pingers = 1;
  };
  world = 0;
}

perform_all-IsWired_example :
    IsWired (perform_all counting_sockets (opens ∷ sends (1 ∷ []) 2 ∷ closes ∷ []) open_link).socket
perform_all-IsWired_example =
    perform_all-IsWired counting_sockets (opens ∷ sends (1 ∷ []) 2 ∷ closes ∷ []) open_link
      (λ h. ground arith)

close-close_example :
    let s = (close counting_sockets open_link).1 in
    (close counting_sockets s ≡ (ok tt, s))
    × (send_message counting_sockets (1 ∷ []) 2 s ≡ (err connection_closed, s))
close-close_example = close-close counting_sockets open_link (1 ∷ []) 2

reconnections-pingers_example :
    let s = perform_all counting_sockets (reconnections counting_sockets 3) open_link in
    (s.socket.is_open ≡ true)
    × (s.socket.pingers ≡ 3 + 1)
    × ((perform_all counting_sockets (replicate 4 pings) s).socket ≡ s.socket)
reconnections-pingers_example =
    reconnections-pingers counting_sockets 2 4 open_link (λ url w. (7, refl))

-- The reads at the times 0 and 1 fail.
two_reads : Failures counting_sockets 7 2 0 2
two_reads = more 1 0 2 eof refl (more 0 1 2 eof refl (none 2))

read_message-success_example :
    read_message counting_sockets open_link ≡ (ok (104 ∷ 105 ∷ []), record open_link { world = 3 })
read_message-success_example =
    read_message-success counting_sockets 2 7 open_link 2 text_message (104 ∷ 105 ∷ []) refl refl
      two_reads (omega arith) refl refl

-- A function that succeeds from time 2 on, with five attempts and a delay that counts by one.
abbrev counting_retryer : Retryer ℕ
counting_retryer = record {
  callable_func = λ w. (if ltb w 2 then err timed_out else ok tt, w);
  delay_of_attempt = pos;
  max_delay_in_milli = pos 5000;
  max_attempts = 5;
  sleep = λ d w. w + 1;
}

two_calls : Calls.Failures counting_retryer 2 0 0 2
unfolding capped next_sleep_time
two_calls = Calls.more 1 0 timed_out 0 2 refl (Calls.more 0 1 timed_out 1 2 refl (Calls.none 2 2))

call_lem_example : call counting_retryer 0 ≡ (ok tt, 2)
call_lem_example = call_lem counting_retryer 2 0 2 two_calls (inl (omega arith, refl))
