-- ===== src/Examples/LabTest.antt =====
-- The lab test's servers and client with a file of three bytes.
use assignments_computer_net.Base.{
  take, subst, ℕ, ◌≡◌, ◌≢◌, refl, Option, none, some, List, [], ◌∷◌, ◌++◌, length, true, false,
  arith, sym, ap,
}
use mathlib.Core.Option.{some-injective}
use assignments_computer_net.Peer.Decimal.{print_int, digits}
use assignments_computer_net.Peer.Text.{Bytes, All}
use assignments_computer_net.Peer.Search.{codes}
use assignments_computer_net.Transfer.System.{finished, undefined}
use assignments_computer_net.Transfer.Fetch.{Connects, localhost}
use assignments_computer_net.LabTest.Answer.{file_header}
use assignments_computer_net.LabTest.Client.{get_file}
use assignments_computer_net.LabTest.Client.Whole.{
  Sized, asked_state, behind_size, size_text-file_header, get_file-receives, get_file-empty,
  get_file-answer,
}
use assignments_computer_net.LabTest.Select.{
  FdSet, fd_set, fd_setsize, Server, handle, round, Reaches, here, next, IsSelect, start_server,
  visit, accept_client, add_client,
}
use assignments_computer_net.LabTest.Select.Order.{members_from, serve_each, round-serve_each}
use assignments_computer_net.LabTest.Select.Main.{open_listener, IsListening, serves, Serves-IsOpen}
use assignments_computer_net.LabTest.Select.Open.{IsOpen}
use assignments_computer_net.Transfer.Listen.{Processes}
use assignments_computer_net.LabTest.Select.Wrong.{Requests, handle-elsewhere}
use assignments_computer_net.Examples.Machine.{
  Machine, machine, machine-IsStream, machine-IsReliable, set,
}

abbrev asked_file : Bytes
asked_file = codes "a.txt"

abbrev contents : Bytes
contents = codes "xyz"

abbrev silent : ℕ → Bytes
silent i = []

abbrev holder : Machine
holder = record { inbox = silent; outbox = silent; disk = contents }

-- The answer comes in on descriptor 5.
abbrev asker : Bytes → Machine
asker answer = record { inbox = set silent 5 answer; outbox = silent; disk = [] }

abbrev linked : (answer : Bytes) → Connects machine asked_file localhost 5000 5 (asker answer)
linked answer = record {
  opens = refl;
  good_address = refl;
  connected = refl;
  written = 5;
  asked = refl;
}

block_comes : take 1024 (file_header 3 ++ contents) ≡ file_header 3
unfolding print_int digits
block_comes = refl

empty_comes : take 1024 (file_header 0) ≡ file_header 0
unfolding print_int digits
empty_comes = refl

get_file-answer_example :
    (shown : List ℕ) × (m : Machine) × (get_file machine 4 localhost 5000 asked_file
        (asker (file_header 3 ++ contents))
      ≡ finished (100 ∷ shown, m))
    × (m.outbox 8 ≡ contents)
get_file-answer_example =
    get_file-answer machine machine-IsStream 4 asked_file localhost contents 5000 5 8
      (asker (file_header 3 ++ contents)) (linked (file_header 3 ++ contents)) refl
      (ap some block_comes) (machine-IsReliable 5 8) refl (omega arith) (omega arith) (omega arith)

abbrev empty :
    Sized machine asked_file
      (some 5)
      (asked_state machine machine-IsStream asked_file localhost 5000 5 (asker (file_header 0)))
      8
      0
empty = record {
  opens = refl;
  first = file_header 0;
  comes = ap some empty_comes;
  says = size_text-file_header machine 0 (omega arith);
  reliable = machine-IsReliable 5 8;
}

get_file-empty_example :
    get_file machine 4 localhost 5000 asked_file (asker (file_header 0)) ≡ undefined
get_file-empty_example =
    get_file-empty machine machine-IsStream 3 asked_file localhost 5000 5 8 (asker (file_header 0))
      (linked (file_header 0)) empty

abbrev waiting : Machine
waiting =
    asked_state machine machine-IsStream asked_file localhost 5000 5
      (asker (file_header 3 ++ contents))

abbrev behind : Machine
behind = behind_size machine machine-IsStream asked_file (some 5) waiting

full : Sized machine asked_file (some 5) waiting 8 3
full = record {
  opens = refl;
  first = file_header 3;
  comes = ap some block_comes;
  says = size_text-file_header machine 3 (omega arith);
  reliable = machine-IsReliable 5 8;
}

three : length (behind.inbox 5) ≡ 3
unfolding print_int digits
three = refl

get_file-receives_example :
    (shown : List ℕ) × (m : Machine) × (get_file machine 4 localhost 5000 asked_file
        (asker (file_header 3 ++ contents))
      ≡ finished (100 ∷ shown, m))
    × (m.outbox 8 ≡ behind.inbox 5)
get_file-receives_example =
    get_file-receives machine machine-IsStream 4 asked_file localhost 5000 5 8 3 3
      (asker (file_header 3 ++ contents)) (linked (file_header 3 ++ contents)) full (omega arith)
      three (omega arith) (omega arith)

-- Descriptor 3 listens, the clients are 4 and 6, and 6 came last; 4 asks for the file.
abbrev server : Server machine
server = record {
  master = fd_set 6 (fd_set 4 (fd_set 3 (λ _. false)));
  read_fds = fd_set 4 (λ _. false);
  fdmax = 6;
  listener = 3;
  newsockfd = some 6;
  system = record { inbox = set silent 4 asked_file; outbox = silent; disk = contents };
}

spelling : All (λ c. c ≢ 0) asked_file
spelling = ground arith

abbrev file_request : Requests machine machine-IsStream server 4 6 asked_file
file_request = record {
  first = 97;
  others = codes ".txt";
  spelt = refl;
  text = spelling;
  short = omega arith;
  from_client = omega arith;
  latest = refl;
  comes = refl;
  size = 3;
  stat = refl;
  small = omega arith;
  fd = 7;
  opens = refl;
  reliable = machine-IsReliable 7 6;
}

handle-elsewhere_example :
    (w : Server machine) × (handle machine 4 server 4 ≡ finished w)
    × (w.system.outbox 4 ≡ [])
    × (w.system.outbox 6 ≡ file_header 3 ++ contents)
handle-elsewhere_example =
    handle-elsewhere machine machine-IsStream 4 server 4 6 asked_file file_request (omega arith)
      (omega arith)

-- A server that has just started finds its listener ready.
abbrev fresh : Server machine
fresh = record {
  master = fd_set 5 (λ _. false);
  read_fds = λ _. false;
  fdmax = 5;
  listener = 5;
  newsockfd = none;
  system = holder;
}

abbrev obliging : Processes machine
obliging = record {
  bind = λ fd portno m. (true, m);
  listen = λ fd n m. (true, m);
  set_reuse_addr = λ fd m. (true, m);
  fork = λ m. (true, m);
}

listener_ready : open_listener machine obliging holder ≡ finished (some 5, holder)
unfolding open_listener
listener_ready = refl

starts_fresh : start_server machine 5 holder ≡ finished fresh
unfolding start_server
starts_fresh = refl

abbrev all_ready : ℕ → FdSet → Machine → Option FdSet × Machine
all_ready n members m = (some members, m)

all_ready-IsSelect : IsSelect machine all_ready
all_ready-IsSelect = record {
  among = λ n members ready m i e r. subst (λ f. f i ≡ true) (sym (some-injective _ _ e)) r;
}

abbrev joined : Server machine
joined = record fresh {
  master = fd_set 6 (fd_set 5 (λ _. false));
  read_fds = fd_set 5 (λ _. false);
  fdmax = 6;
  newsockfd = some 6;
}

comes_in : round machine all_ready 4 fresh ≡ finished joined
unfolding round visit handle accept_client add_client
comes_in = refl

joins : Reaches machine all_ready fresh joined
joins = next 4 here comes_in

Serves-IsOpen_example : IsListening machine obliging holder × IsOpen joined
Serves-IsOpen_example =
    Serves-IsOpen machine obliging all_ready holder joined all_ready-IsSelect
      (serves listener_ready starts_fresh joins)

round-serve_each_example :
    round machine all_ready 4 fresh
    ≡ serve_each 4
        (members_from fd_setsize 0 fresh.master)
        (record fresh { read_fds = fresh.master })
round-serve_each_example =
    round-serve_each machine obliging all_ready holder fresh 4 fresh.master all_ready-IsSelect
      (serves listener_ready starts_fresh here) refl
