-- ===== src/Session/Port/Net.antt =====
-- What the port sessions use of package net, and their parameters. A listener and a connection are known
-- by a number.
use ecstoolkit.Base.{ℕ, Option, Result}
use ecstoolkit.Buffer.{Bytes}

-- `PortParameters`
pub record PortParameters : Type 0 where
  pub port_number : Bytes
  pub local_port_number : Bytes
  pub local_unix_socket : Bytes
  pub local_connection_type : Bytes
  pub parameters_type : Bytes

-- `tcp_port` is the decimal port of the address of a listener, if that is a TCP address.
pub record Network (S : Type 0) : Type 0 where
  pub listen : Bytes → Bytes → S → Result ℕ × S
  pub tcp_port : ℕ → Option Bytes
  pub accept : ℕ → S → Result ℕ × S
  pub dial_listener : ℕ → S → Result ℕ × S
  pub read : ℕ → S → Result Bytes × S
  pub write : ℕ → Bytes → S → Result (Unit {0}) × S
  pub close_connection : ℕ → S → Result (Unit {0}) × S
  pub close_listener : ℕ → S → Result (Unit {0}) × S
  pub join_host_port : Bytes → Bytes → Bytes
