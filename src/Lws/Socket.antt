-- ===== src/Lws/Socket.antt =====
-- What the framed sockets use of a socket, by tokio's `poll_read_buf` and `poll_write_buf`: an
-- interface whose laws are their documented behaviour. The bytes still to come and those written so
-- far are no part of the program: the laws speak of them.
use lproxy_cv.Prelude.{ℕ, ◌≤◌, ◌≡◌, List, [], ◌++◌, length, take}

-- Bytes that were read, none at the end of the stream.
pub data Read : Type 0 where
  waits : Read
  got : List ℕ → Read
  failed : Read

pub data Write : Type 0 where
  waits : Write
  wrote : ℕ → Write
  failed : Write

pub record Socket (Io : Type 0) : Type 0 where
  pub poll_read_buf : Io → ℕ → Io × Read
  pub poll_write_buf : Io → List ℕ → Io × Write
  pub poll_flush : Io → Io × Write
  pub coming : Io → List ℕ
  pub written : Io → List ℕ
  -- No more is read than there is room for, and nothing only where there is no room or no byte left.
  pub read_got :
      (io : Io) (room : ℕ) {io' : Io} {bs : List ℕ}
      → poll_read_buf io room ≡ (io', got bs)
      → (coming io ≡ bs ++ coming io') × (length bs ≤ room) × (1 ≤ room → bs ≡ [] → coming io ≡ [])
  pub read_waits :
      (io : Io) (room : ℕ) {io' : Io}
      → poll_read_buf io room ≡ (io', Read.waits)
      → coming io' ≡ coming io
  -- A write may take no byte at all.
  pub write_wrote :
      (io : Io) (bs : List ℕ) {io' : Io} {n : ℕ}
      → poll_write_buf io bs ≡ (io', wrote n)
      → (written io' ≡ written io ++ take n bs) × (n ≤ length bs)
  pub write_waits :
      (io : Io) (bs : List ℕ) {io' : Io}
      → poll_write_buf io bs ≡ (io', Write.waits)
      → written io' ≡ written io
  pub flush_keeps : (io : Io) → written (poll_flush io).0 ≡ written io
