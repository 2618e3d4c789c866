-- ===== src/Examples/Machine.antt =====
-- A small operating system with one file: descriptors are numbers, every read gives what is asked for
-- or what is left, every write takes all or a few bytes, 7 is the file for reading and 8 the new file.
use mathlib.Core.Option.{some-injective}
use assignments_computer_net.Base.{
  ℕ, zero, suc, ◌≡◌, ◌≢◌, ◌<◌, refl, sym, ap, Option, none, some, [], ◌∷◌, ◌++◌, true, length, take,
  take_all, arith, ◌==◌, if◌then◌else◌,
}
use assignments_computer_net.Peer.Text.{Bytes}
use assignments_computer_net.Transfer.System.{Fd, System, IsStream}
use assignments_computer_net.Transfer.Copy.{IsReliable}

pub record Machine : Type 0 where
  pub inbox : ℕ → Bytes
  pub outbox : ℕ → Bytes
  pub disk : Bytes

abbrev rest_after : ℕ → Bytes → Bytes
rest_after zero l = l
rest_after (suc n) [] = []
rest_after (suc n) (c ∷ l) = rest_after n l

abbrev pub set : (ℕ → Bytes) → ℕ → Bytes → ℕ → Bytes
set f i t j = if j == i then t else f j

abbrev read_at : Fd → ℕ → Machine → Option Bytes × Machine
read_at none n m = (none, m)
read_at (some i) n m =
    (some (take n (m.inbox i)), record m { inbox = set m.inbox i (rest_after n (m.inbox i)) })

-- What a write takes: all, or so many bytes at most.
abbrev pub chunk : Option ℕ → Bytes → Bytes
chunk none t = t
chunk (some n) t = take n t

chunk-take : (cap : Option ℕ) (t : Bytes) → take (length (chunk cap t)) t ≡ chunk cap t
chunk-take none t = take_all t
chunk-take (some zero) t = refl
chunk-take (some (suc n)) [] = refl
chunk-take (some (suc n)) (c ∷ t) = ap (λ l. c ∷ l) (chunk-take (some n) t)

abbrev write_at : Option ℕ → Fd → Bytes → Machine → Option ℕ × Machine
write_at cap none t m = (none, m)
write_at cap (some i) t m =
    (some (length (chunk cap t)), record m { outbox = set m.outbox i (m.outbox i ++ chunk cap t) })

abbrev pub machine_of : Option ℕ → System
machine_of cap = record {
  State = Machine;
  read = read_at;
  write = write_at cap;
  write_minus_one = λ fd m. (none, m);
  open_read = λ name m. (some 7, record m { inbox = set m.inbox 7 m.disk });
  open_write = λ name m. (some 8, record m { outbox = set m.outbox 8 [] });
  close = λ fd m. m;
  stat_size = λ name m. some (length m.disk);
  socket = λ m. (some 5, m);
  inet_aton = λ ip. true;
  connect = λ fd ip port m. (true, m);
  accept = λ fd m. (some 6, m);
}

abbrev inbox_of : Fd → Machine → Bytes
inbox_of none m = []
inbox_of (some i) m = m.inbox i

abbrev outbox_of : Fd → Machine → Bytes
outbox_of none m = []
outbox_of (some i) m = m.outbox i

take-rest_after : (n : ℕ) (l : Bytes) → take n l ++ rest_after n l ≡ l
take-rest_after zero l = refl
take-rest_after (suc n) [] = refl
take-rest_after (suc n) (c ∷ l) = ap (λ k. c ∷ k) (take-rest_after n l)

pub takes :
    (fd : Fd) (n : ℕ) (m : Machine) (t : Bytes)
    → (read_at fd n m).0 ≡ some t
    → inbox_of fd m ≡ t ++ inbox_of fd (read_at fd n m).1
takes none n m t e = cc
takes (some i) n m t e = ground (arith, take-rest_after n (m.inbox i))

nothing_taken : (n : ℕ) (l : Bytes) → take (suc n) l ≡ [] → l ≡ []
nothing_taken n [] e = refl
nothing_taken n (c ∷ l) e = cc

pub ends :
    (fd : Fd) (n : ℕ) (m : Machine) → 0 < n → (read_at fd n m).0 ≡ some [] → inbox_of fd m ≡ []
ends none n m h e = cc
ends (some i) zero m h e = absurd (omega arith)
ends (some i) (suc n) m h e = nothing_taken n (m.inbox i) (some-injective _ _ e)

pub sends_nothing :
    (fd g : Fd) (n : ℕ) (m : Machine) → outbox_of g (read_at fd n m).1 ≡ outbox_of g m
sends_nothing none g n m = refl
sends_nothing (some i) none n m = refl
sends_nothing (some i) (some j) n m = refl

pub gives :
    (cap : Option ℕ) (fd : Fd) (t : Bytes) (m : Machine) (k : ℕ)
    → (write_at cap fd t m).0 ≡ some k
    → outbox_of fd (write_at cap fd t m).1 ≡ outbox_of fd m ++ take k t
gives cap none t m k e = cc
gives cap (some i) t m k e = ground (arith, chunk-take cap t)

pub elsewhere :
    (cap : Option ℕ) (fd g : Fd) (t : Bytes) (m : Machine)
    → g ≢ fd
    → outbox_of g (write_at cap fd t m).1 ≡ outbox_of g m
elsewhere cap none g t m h = refl
elsewhere cap (some i) none t m h = refl
elsewhere cap (some i) (some j) t m h = ground (arith, h)

pub reads_nothing :
    (cap : Option ℕ) (fd g : Fd) (t : Bytes) (m : Machine)
    → inbox_of g (write_at cap fd t m).1 ≡ inbox_of g m
reads_nothing cap none g t m = refl
reads_nothing cap (some i) none t m = refl
reads_nothing cap (some i) (some j) t m = refl

pub new_file :
    (fd : ℕ) (m : Machine) → (◌≡◌ {A = Option ℕ} (some 8) (some fd)) → set m.outbox 8 [] fd ≡ []
new_file fd m e = ground arith

pub opened :
    (fd : ℕ) (m : Machine)
    → (◌≡◌ {A = Option ℕ} (some 7) (some fd))
    → set m.inbox 7 m.disk fd ≡ m.disk
opened fd m e = ground arith

pub unmoved :
    (g : Fd) (m : Machine) → outbox_of g (record m { inbox = set m.inbox 7 m.disk }) ≡ outbox_of g m
unmoved none m = refl
unmoved (some j) m = refl

pub unread :
    (g : Fd) (m : Machine) → inbox_of g (record m { outbox = set m.outbox 8 [] }) ≡ inbox_of g m
unread none m = refl
unread (some j) m = refl

pub same_disk : (fd : Fd) (n : ℕ) (m : Machine) → (read_at fd n m).1.disk ≡ m.disk
same_disk none n m = refl
same_disk (some i) n m = refl

abbrev pub machine_of-IsStream : (cap : Option ℕ) → IsStream (machine_of cap)
machine_of-IsStream cap = record {
  pending = inbox_of;
  sent = outbox_of;
  file = λ name m. m.disk;
  read_takes = takes;
  read_end = ends;
  read_sends_nothing = sends_nothing;
  write_gives = gives cap;
  write_elsewhere = elsewhere cap;
  write_reads_nothing = reads_nothing cap;
  open_read_file = λ name m fd. opened fd m;
  open_read_sends_nothing = λ name. unmoved;
  open_write_new = λ name m fd. new_file fd m;
  open_write_reads_nothing = λ name. unread;
  close_sends_nothing = λ fd g m. refl;
  stat_size_file = λ name m n e. some-injective _ _ (sym e);
  read_keeps_files = λ fd n name m. same_disk fd n m;
}

abbrev pub machine : System
machine = machine_of none

abbrev pub machine-IsStream : IsStream machine
machine-IsStream = machine_of-IsStream none

pub machine-IsReliable : (i j : ℕ) → IsReliable machine (some i) (some j)
machine-IsReliable i j = record { reads = λ n m. (take n (m.inbox i), refl); writes = λ t m. refl }
