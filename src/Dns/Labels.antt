-- ===== src/Dns/Labels.antt =====
-- src/dns/dnspacket.rs: `write_qname`, which writes a name into a DNS message.
use lproxy_cv.Prelude.{ℕ, List, [], ◌∷◌, ltb, if◌then◌else◌, length}
use lproxy_cv.Prelude.Outcome.{err}
use lproxy_cv.Dns.Buffer.{label_too_long, M, ◌>>◌, write, write_bytes}
use lproxy_cv.Dns.Domap.{split_dot}

abbrev pub too_long : M (Unit {0})
too_long b = err label_too_long

unfoldable pub write_label : List ℕ → M (Unit {0})
write_label l = if ltb 52 (length l) then too_long else (do write (length l); write_bytes l)

unfoldable pub write_labels : List (List ℕ) → M (Unit {0})
write_labels [] = write 0
write_labels (l ∷ ls) = do write_label l; write_labels ls

unfoldable pub write_qname : List ℕ → M (Unit {0})
write_qname qname = write_labels (split_dot qname)
