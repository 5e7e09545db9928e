-- ===== src/Lws/Msg.antt =====
-- src/lws/msg.rs: the buffers of the messages that go through a tunnel. A buffer is the list of its
-- bytes: the code takes a buffer out of its `Option` only where it gives the message up. Numbers
-- wrap as in a release build.
pub mod Framing
use lproxy_cv.Prelude.{
  ℕ, ◌+◌, ◌-◌, ◌%◌, ◌^◌, Bool, true, false, ◌&&◌, ◌||◌, Option, none, some, List, [], ◌∷◌, ◌++◌,
  ltb, leb, ◌==◌, if◌then◌else◌, length, take, drop, replicate,
}
use lproxy_cv.Prelude.Outcome.{Outcome, ok, unwrap, ◌>>=◌}
use lproxy_cv.Wire.{ByteIo, slice_from}

abbrev pub default_cap : ℕ
default_cap = 8096

abbrev pub head_size : ℕ
head_size = 2

-- `a - b` on usize
abbrev pub sub_usize : ℕ → ℕ → ℕ
sub_usize a b = (a + 2 ^ 64 - b) % 2 ^ 64

-- `error` holds the length that was refused.
pub record RMessage : Type 0 where
  pub buf : List ℕ
  pub cached_length : ℕ
  pub error : Option ℕ

abbrev pub new_rmessage : RMessage
new_rmessage = record { buf = []; cached_length = 0; error = none }

abbrev pub has_error : Option ℕ → Bool
has_error none = false
has_error (some e) = true

unfoldable pub is_completed : RMessage → Bool
is_completed m =
    if has_error m.error
    then true
    else (ltb 0 m.cached_length && (m.cached_length == (length m.buf % 65536)))

unfoldable pub remaining_mut : RMessage → ℕ
remaining_mut m =
    if has_error m.error
    then 0
    else if ltb (length m.buf) head_size
    then head_size - length m.buf
    else sub_usize m.cached_length (length m.buf)

module _ (io : ByteIo) where
  open io use {read_with}

  -- The head as `advance_mut` reads it from the bytes of the buffer.
  read_head : List ℕ → RMessage → Outcome ⊥ RMessage
  read_head vec m = do
    n ← unwrap (read_with 2 (take head_size vec) 0)
    ok (record m {
      buf = vec;
      cached_length = n;
      error = if n == 0 || ltb default_cap n then some n else m.error;
    })

  -- The bytes that the caller has written behind the end join the buffer.
  unfoldable pub advance_mut : RMessage → List ℕ → Outcome ⊥ RMessage
  unfolding read_head
  advance_mut m bytes =
      let vec = m.buf ++ bytes in
      if m.cached_length == 0 && leb head_size (length vec)
      then read_head vec m
      else ok (record m { buf = vec })

pub record WMessage : Type 0 where
  pub buf : List ℕ
  pub cursor : ℕ

abbrev pub new_wmessage : List ℕ → ℕ → WMessage
new_wmessage v cursor = record { buf = v; cursor = cursor }

unfoldable pub is_written : WMessage → Bool
is_written m = m.cursor == (length m.buf % 65536)

unfoldable pub remaining : WMessage → ℕ
remaining m = sub_usize (length m.buf) m.cursor

unfoldable pub bytes : WMessage → Outcome ⊥ (List ℕ)
bytes m = slice_from m.cursor m.buf

unfoldable pub advance : WMessage → ℕ → WMessage
advance m cnt = record m { cursor = (m.cursor + cnt % 65536) % 65536 }

pub record TMessage : Type 0 where
  pub buf : List ℕ

abbrev pub tmessage_keep : ℕ
tmessage_keep = 7

-- Room for the head of a tunnel message stands before what is read.
unfoldable pub new_tmessage : TMessage
new_tmessage = record { buf = replicate tmessage_keep 0 }

-- The capacity that `Vec::with_capacity` gave, at least `DEFAULT_CAP`, is an argument.
unfoldable pub tmessage_remaining_mut : ℕ → TMessage → ℕ
tmessage_remaining_mut capacity m = sub_usize capacity (length m.buf)

unfoldable pub tmessage_advance_mut : TMessage → List ℕ → TMessage
tmessage_advance_mut m bytes = record m { buf = m.buf ++ bytes }
