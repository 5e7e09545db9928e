-- ===== src/Witnesses/Sockets.antt =====
-- The theorems on the framed socket and the handshake over a socket in memory.
use lproxy_cv.Prelude.{
  append-nil, ℕ, zero, suc, ◌≤◌, ◌≡◌, refl, sym, ap, ◌∙◌, false, Option, none, some, List, [], ◌∷◌,
  ◌++◌, arith, length, take, drop, take-append-drop, length-take, position, starts_with, codes,
}
use lproxy_cv.Prelude.Outcome.{ok}
use lproxy_cv.Wire.{little}
use lproxy_cv.Lws.Msg.{RMessage, WMessage}
use lproxy_cv.Lws.Socket.{Socket, Read, got, Write, wrote}
use lproxy_cv.Lws.Framed.{LwsFramed, Next, Flushed, poll_next, write_out}
use lproxy_cv.Lws.Framed.Streams.{At, Comes, poll_next_lem}
use lproxy_cv.Lws.Framed.Sinks.{Written, write_out_lem, write_out_runs_on}
use lproxy_cv.Lws.TcpFramed.{TcpFramed, Gives, poll_next-Gives}
use lproxy_cv.Lws.TcpFramed
use lproxy_cv.Lws.Handshake.{CHandshake, Shaken, reading_response, crlf, poll}
use lproxy_cv.Lws.Handshake.Behind.{Leaves, poll_lem}

-- The bytes to come, and those that were written.
abbrev Memory : Type 0
Memory = List ℕ × List ℕ

abbrev read_memory : Memory → ℕ → Memory × Read
read_memory io room = ((drop room io.0, io.1), got (take room io.0))

abbrev write_memory : Memory → List ℕ → Memory × Write
write_memory io bs = ((io.0, io.1 ++ bs), wrote (length bs))

bytes_of : Read → List ℕ
bytes_of (got bs) = bs
bytes_of Read.waits = []
bytes_of Read.failed = []

count_of : Write → ℕ
count_of (wrote n) = n
count_of Write.waits = 0
count_of Write.failed = 0

take_nothing : (n : ℕ) (l : List ℕ) → 1 ≤ n → take n l ≡ [] → l ≡ []
take_nothing zero l h e = absurd (omega (arith, h))
take_nothing (suc n) [] h e = refl
take_nothing (suc n) (x ∷ l) h e = absurd (cc e)

take_all : (l : List ℕ) → take (length l) l ≡ l
take_all [] = refl
take_all (x ∷ l) = ap (λ t. x ∷ t) (take_all l)

memory_got :
    (io : Memory) (room : ℕ) {io' : Memory} {bs : List ℕ}
    → read_memory io room ≡ (io', got bs)
    → (io.0 ≡ bs ++ io'.0) × (length bs ≤ room) × (1 ≤ room → bs ≡ [] → io.0 ≡ [])
unfolding bytes_of
memory_got io room {io'} {bs} h =
    let b : take room io.0 ≡ bs = ap (λ r. bytes_of r.1) h in
    let i : drop room io.0 ≡ io'.0 = ap (λ r. r.0.0) h in
    (
      rw (sym b, sym i) (sym (take-append-drop room io.0)),
      omega (arith, length-take room io.0, ap length b),
      λ n e. take_nothing room io.0 n (b ∙ e),
    )

memory_wrote :
    (io : Memory) (bs : List ℕ) {io' : Memory} {n : ℕ}
    → write_memory io bs ≡ (io', wrote n)
    → (io'.1 ≡ io.1 ++ take n bs) × (n ≤ length bs)
unfolding count_of
memory_wrote io bs {io'} {n} h =
    let c : length bs ≡ n = ap (λ r. count_of r.1) h in
    let i : io.1 ++ bs ≡ io'.1 = ap (λ r. r.0.1) h in
    (rw (sym c, sym i, take_all bs) refl, omega (arith, c))

full_wrote :
    (io : Memory) (bs : List ℕ) {io' : Memory} {n : ℕ}
    → ◌≡◌ {A = Memory × Write} (io, wrote 0) (io', wrote n)
    → (io'.1 ≡ io.1 ++ take n bs) × (n ≤ length bs)
unfolding count_of
full_wrote io bs {io'} {n} h =
    let c : ◌≡◌ {A = ℕ} 0 n = ap (λ r. count_of r.1) h in
    let i : io.1 ≡ io'.1 = ap (λ r. r.0.1) h in
    (rw (sym c, sym i) (sym (append-nil io.1)), omega (arith, c))

never : {l : List ℕ} → Read.got l ≡ Read.waits → ⊥
never h = cc h

never_wrote : {n : ℕ} → Write.wrote n ≡ Write.waits → ⊥
never_wrote h = cc h

abbrev memory : Socket Memory
memory = record {
  poll_read_buf = read_memory;
  poll_write_buf = write_memory;
  poll_flush = λ io. (io, wrote 0);
  coming = λ io. io.0;
  written = λ io. io.1;
  read_got = memory_got;
  read_waits = λ io room h. absurd (never (ap (λ r. r.1) h));
  write_wrote = memory_wrote;
  write_waits = λ io bs h. absurd (never_wrote (ap (λ r. r.1) h));
  flush_keeps = λ io. refl;
}

abbrev plain : TcpFramed Memory
plain = record { io = (5 ∷ 6 ∷ 7 ∷ [], []); reading = none; writing = none; has_finished = false }

poll_next-Gives_example : Gives memory 9 plain (TcpFramed.poll_next memory 9 plain)
poll_next-Gives_example = poll_next-Gives memory 9 plain refl (omega arith) (omega arith)

-- The first byte of a frame of four stands in the tail, and a byte of the next behind it.
abbrev framed : LwsFramed Memory
framed = record {
  io = (0 ∷ 7 ∷ 8 ∷ 9 ∷ [], []);
  reading = none;
  writing = none;
  tail = some (4 ∷ []);
  has_finished = false;
}

framed-At : At memory little framed [] (4 ∷ 0 ∷ 7 ∷ 8 ∷ 9 ∷ [])
framed-At = record { holds = refl; next = refl }

poll_next_lem_example :
    (o : LwsFramed Memory × Next RMessage) × (poll_next memory little 5 framed ≡ ok (some o))
    × Comes memory little (4 ∷ 0 ∷ 7 ∷ 8 ∷ []) (9 ∷ []) o
poll_next_lem_example =
    poll_next_lem memory little 4 0 (7 ∷ 8 ∷ []) refl (omega arith) 5 framed [] (4 ∷ 0 ∷ 7 ∷ 8 ∷ [])
      (9 ∷ []) refl (omega arith) framed-At (omega arith)

abbrev sent_already : WMessage
sent_already = record { buf = 3 ∷ 0 ∷ 5 ∷ []; cursor = 1 }

write_out_lem_example :
    (o : Memory × Option WMessage × Option Flushed) × (write_out memory 3 ([], 3 ∷ []) sent_already
      ≡ ok o)
    × Written memory 3 ([], 3 ∷ []) sent_already o
write_out_lem_example =
    write_out_lem memory 3 ([], 3 ∷ []) sent_already
      (record { small = omega arith; inside = omega arith })

-- A socket whose writes take no byte.
abbrev full : Socket Memory
full = record {
  poll_read_buf = read_memory;
  poll_write_buf = λ io bs. (io, wrote 0);
  poll_flush = λ io. (io, wrote 0);
  coming = λ io. io.0;
  written = λ io. io.1;
  read_got = memory_got;
  read_waits = λ io room h. absurd (never (ap (λ r. r.1) h));
  write_wrote = full_wrote;
  write_waits = λ io bs h. absurd (never_wrote (ap (λ r. r.1) h));
  flush_keeps = λ io. refl;
}

write_out_runs_on_example :
    write_out full 9 ([], 3 ∷ []) sent_already ≡ ok (([], 3 ∷ []), some sent_already, none)
write_out_runs_on_example =
    write_out_runs_on full 9 ([], 3 ∷ []) sent_already
      (record { small = omega arith; inside = omega arith }) (omega arith) refl

abbrev head : List ℕ
head = codes "HTTP/1.1 101"

no_empty_line : position (crlf ++ crlf) (head ++ (13 ∷ 10 ∷ 13 ∷ [])) ≡ none
unfolding position starts_with
no_empty_line = refl

-- Three bytes of the response were read, and a frame begins behind it.
abbrev response : List ℕ
response = head ++ ((crlf ++ crlf) ++ (4 ∷ 0 ∷ []))

abbrev handshake : CHandshake Memory
handshake = record {
  io = some (drop 3 response, []);
  read_buf = take 3 response;
  wmsg = sent_already;
  state = reading_response;
}

poll_lem_example :
    (o : CHandshake Memory × Shaken Memory) × (poll memory (λ l. 1024) 14 handshake ≡ ok (some o))
    × Leaves memory (λ l. 1024) little response (4 ∷ 0 ∷ []) o
poll_lem_example =
    poll_lem memory (λ l. 1024) little head (4 ∷ 0 ∷ []) no_empty_line 14 handshake
      (drop 3 response, []) refl refl refl (omega arith) (omega arith)
