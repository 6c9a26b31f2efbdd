-- ===== src/Gateway/Granted.antt =====
-- `handle` of labztna/gateway.py from the bytes of a connection to a granted connection.
use ztna_lab.Base.{ℕ, ◌≡◌, refl, Text, Bytes, Result, ok, err}
use ztna_lab.Auth.{Externals}
use ztna_lab.Gateway.{
  Refusal, Hello, Gateway, Grant, parse_hello, connect, audited, after_hello, handle,
}
use ztna_lab.Gateway.Access.{IsGranted, connect_checked}
use ztna_lab.Gateway.Lines.{
  LineError, readline, readline_iff, IsLine, handle_line, handle_connection,
}

-- What a connection that is granted has sent, and what held of it.
pub record IsAdmitted (x : Externals) (g : Gateway) (verified seen now : ℕ) (bytes : Bytes)
    (grant : Grant) : Type 0 where
  pub line : Bytes
  pub hello : Hello
  pub is_line : IsLine 8192 bytes line
  pub parsed : parse_hello x line ≡ ok hello
  pub is_granted : IsGranted x g verified seen now hello grant

module _ (x : Externals) (stamp : Text) (verified seen now : ℕ) (g : Gateway) (grant : Grant) where
  granted_connect :
      (h : Hello)
      → (r : Gateway × Result Refusal Grant) → (audited stamp h r).1 ≡ ok grant
      → r.1 ≡ ok grant
  granted_connect h (g', ok grant') e = e
  granted_connect h (g', err refusal) e = cc e

  with_hello :
      (bytes line : Bytes) (read : Result Refusal Hello)
      → IsLine 8192 bytes line
      → parse_hello x line ≡ read
      → (after_hello x stamp verified seen now g read).1 ≡ ok grant
      → IsAdmitted x g verified seen now bytes grant
  with_hello bytes line (err refusal) l e h = cc h
  with_hello bytes line (ok hello) l e h = record {
    line = line;
    hello = hello;
    is_line = l;
    parsed = e;
    is_granted =
        connect_checked x verified seen now hello g grant
          (granted_connect hello (connect x verified seen now hello g) h);
  }

  with_line :
      (bytes : Bytes) (read : Result LineError Bytes)
      → readline 8192 bytes ≡ read
      → (handle_line x stamp verified seen now g read).1 ≡ ok grant
      → IsAdmitted x g verified seen now bytes grant
  unfolding handle
  with_line bytes (err e) same h = cc h
  with_line bytes (ok line) same h =
      with_hello bytes line (parse_hello x line) ((readline_iff 8192 bytes line).0 same) refl h

  -- Where the gateway grants a connection, the first line of its bytes, of less than 8,192 bytes,
  -- is a handshake whose token, session, proof, request id and policy decision passed every check.
  pub handle_connection-IsAdmitted :
      (bytes : Bytes)
      → (handle_connection x stamp verified seen now bytes g).1 ≡ ok grant
      → IsAdmitted x g verified seen now bytes grant
  unfolding handle_connection
  handle_connection-IsAdmitted bytes h = with_line bytes (readline 8192 bytes) refl h
