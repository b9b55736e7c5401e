-- ===== src/Pipe/Stream.antt =====
-- Any number of readers and writers on one pipe, each holding the lock for one round of its loop at
-- a time, in any order (api/src/file/pipe.rs).
use freeos.Prelude.{
  ℕ, ◌-◌, ◌≡◌, refl, sym, ap, ◌∙◌, List, [], ◌∷◌, ◌++◌, append_assoc, take, length, arith,
}
use freeos.Pipe.Ring.{new}
use freeos.Pipe.Ring.Invariant.{IsValid, new-IsValid}
use freeos.Pipe.Ring.Queue.{contents, contents-new}
use freeos.Pipe.End.{
  Shared, ReadRound, reads, waits, read_round, WriteRound, writes, again, write_round,
}
use freeos.Pipe.End.Read.{Reads, read_round-Reads}
use freeos.Pipe.End.Write.{Sends, Writes, write_round-Writes}

-- The pipe, all bytes that writers counted as written, and all that readers were given.
pub record System : Type 0 where
  pub shared : Shared
  pub sent : List ℕ
  pub received : List ℕ

abbrev pub after_read : System → ReadRound → System
after_read y (reads bytes s) = record y { shared = s; received = y.received ++ bytes }
after_read y waits = y

-- A writer that counted from `before` to `after` counts that many bytes of `rest` as written.
abbrev pub after_write : System → List ℕ → ℕ → WriteRound → System
after_write y rest before (writes after s) = record y {
  shared = s;
  sent = y.sent ++ take (after - before) rest;
}
after_write y rest before (again left after s) = record y {
  shared = s;
  sent = y.sent ++ take (after - before) rest;
}

pub data Step (y : System) : System → Type 0 where
  reader : (len : ℕ) → Step y (after_read y (read_round y.shared len))
  writer :
      (rest : List ℕ) (before : ℕ)
      → Step y (after_write y rest before (write_round y.shared rest before))
  owners : (n : ℕ) → Step y (record y { shared = record y.shared { strong_count = n } })

pub data Reach (y : System) : System → Type 0 where
  here : Reach y y
  next : {z w : System} → Reach y z → Step z w → Reach y w

abbrev pub start : System
start = record { shared = record { ring = new; strong_count = 2 }; sent = []; received = [] }

-- What was received, and then what the ring holds, is what was sent.
pub record IsStream (y : System) : Type 0 where
  pub valid : IsValid y.shared.ring
  pub in_order : y.received ++ contents y.shared.ring ≡ y.sent

after_read-IsStream :
    (y : System) (len : ℕ) (out : ReadRound)
    → IsStream y
    → Reads y.shared len out
    → IsStream (after_read y out)
after_read-IsStream y len (reads bytes s) i r = record {
  valid = r.0;
  in_order =
      append_assoc y.received bytes (contents s.ring)
      ∙ ap (λ l. y.received ++ l) (sym r.2)
      ∙ i.in_order;
}
after_read-IsStream y len waits i r = i

take-append : (xs ys : List ℕ) → take (length xs) (xs ++ ys) ≡ xs
take-append [] ys = refl
take-append (x ∷ xs) ys = ap (◌∷◌ x) (take-append xs ys)

sent-IsStream :
    (y : System) (rest : List ℕ) (before : ℕ) (left : List ℕ) (after : ℕ) (s : Shared)
    → IsStream y
    → Sends y.shared.ring rest before left after s.ring
    → IsStream (record y { shared = s; sent = y.sent ++ take (after - before) rest })
sent-IsStream y rest before left after s i d =
    let n : after - before ≡ length d.sent = omega (arith, d.count) in
    let taken : take (after - before) rest ≡ d.sent = rw (n, d.split) (take-append d.sent left) in
    record {
      valid = d.valid;
      in_order =
          ap (λ l. y.received ++ l) d.queued
          ∙ sym (append_assoc y.received (contents y.shared.ring) d.sent)
          ∙ ap (λ l. l ++ d.sent) i.in_order
          ∙ ap (λ l. y.sent ++ l) (sym taken);
    }

after_write-IsStream :
    (y : System) (rest : List ℕ) (before : ℕ) (out : WriteRound)
    → IsStream y
    → Writes y.shared rest before out
    → IsStream (after_write y rest before out)
after_write-IsStream y rest before (writes after s) i w =
    sent-IsStream y rest before w.1 after s i w.2
after_write-IsStream y rest before (again left after s) i w =
    sent-IsStream y rest before left after s i w.1

Step-IsStream : {y z : System} → Step y z → IsStream y → IsStream z
Step-IsStream {y} (reader len) i =
    after_read-IsStream y len _ i (read_round-Reads y.shared len i.valid)
Step-IsStream {y} (writer rest before) i =
    after_write-IsStream y rest before _ i (write_round-Writes y.shared rest before i.valid)
Step-IsStream {y} (owners n) i = record { valid = i.valid; in_order = i.in_order }

Reach-IsStream_from : {y z : System} → IsStream y → Reach y z → IsStream z
Reach-IsStream_from i here = i
Reach-IsStream_from i (next r st) = Step-IsStream st (Reach-IsStream_from i r)

start-IsStream : IsStream start
start-IsStream = record { valid = new-IsValid; in_order = contents-new }

-- Whatever readers and writers do, in whatever order, the bytes received and then the bytes in the
-- ring are the bytes sent, in order: none is lost, doubled or overtaken.
pub Reach-IsStream : {y : System} → Reach start y → IsStream y
Reach-IsStream r = Reach-IsStream_from start-IsStream r
